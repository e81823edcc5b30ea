-- ===== src/Deque/Turn.antt =====
-- The steps that write the anchor of a stable deque, and what holds of the anchor.
use amino.Prelude.{ℕ, ◌≡◌, ◌≢◌, refl, sym, ◌∙◌, ap, subst, List, [], ◌∷◌}
use amino.Blocking.{End, left, right}
use amino.Deque.Memory.{opp, stable, pushing, Anchor, end_of, Owner, fresh, pushed, Memory, link}
use amino.Deque.Views.{rev}
use amino.Deque.Lists.{rev-rev, Toward-unsnoc}
use amino.Deque.Shape.{IsPushed, Shape, Shape-flip, pushing_ne, stable_ne}
use amino.Deque.Invariant.{view, Snap, IsSound}
use amino.Deque.Grows.{Grows}
use amino.Deque.Good.{born_le}
use amino.Deque.Kept.{Kept}

pub view-view : (e : End) (v : List ℕ) → view e (view e v) ≡ v
view-view left v = refl
view-view right v = rev-rev v

pub Shape-view : (m : Memory) (e : End) (l : List ℕ) → Shape m left l → Shape m e (view e l)
Shape-view m left l s = s
Shape-view m right l s = Shape-flip m left l s

pub Shape-back : (m : Memory) (e : End) (v : List ℕ) → Shape m e v → Shape m left (view e v)
Shape-back m left v s = s
Shape-back m right v s = Shape-flip m right v s

pub ends_differ : (e : End) (a : Anchor) → a.at_left ≢ a.at_right → end_of e a ≢ end_of (opp e) a
ends_differ left a h e = h e
ends_differ right a h e = h (sym e)

pub ends_agree : (e : End) (a : Anchor) → end_of e a ≢ end_of (opp e) a → a.at_left ≢ a.at_right
ends_agree left a h e = h e
ends_agree right a h e = h (sym e)

-- A deque whose ends differ has a first and a second node.
pub two_of :
    (m : Memory) (e : End) (v : List ℕ)
    → Shape m e v
    → m.anchor.at_left ≢ m.anchor.at_right
    → (h p : ℕ) × (k : List ℕ) × (v ≡ h ∷ p ∷ k)
two_of m e [] s h = absurd (ends_differ e m.anchor h (s.near.starts ∙ sym (s.far.starts)))
two_of m e (a ∷ []) s h = absurd (ends_differ e m.anchor h (s.near.starts ∙ sym (s.far.starts)))
two_of m e (a ∷ b ∷ k) s h = (a, b, k, refl)

pub one_of :
    (m : Memory) (e : End) (v : List ℕ)
    → Shape m e v
    → end_of e m.anchor ≢ 0
    → (h : ℕ) × (k : List ℕ) × (v ≡ h ∷ k)
one_of m e [] s h = absurd (h (s.near.starts))
one_of m e (a ∷ k) s h = (a, k, refl)

pub none_of : (m : Memory) (e : End) (v : List ℕ) → Shape m e v → end_of e m.anchor ≡ 0 → v ≡ []
none_of m e [] s h = refl
none_of m e (a ∷ k) s h = absurd (s.all.0.0 (sym (s.near.starts) ∙ h))

pub end-IsPushed :
    (m : Memory) (e : End) (l : List ℕ)
    → IsSound m l
    → end_of e m.anchor ≢ 0
    → IsPushed m (end_of e m.anchor)
end-IsPushed m e l s h =
    let sh = Shape-view m e l s.shape in
    let (a, k, v) = one_of m e (view e l) sh h in
    let sh' = subst (λ z. Shape m e z) v sh in
    subst (λ z. IsPushed m z) (sym (sh'.near.starts)) sh'.all.0

-- The node that was just pushed and the one behind it.
pub behind :
    (m : Memory) (e : End) (l : List ℕ)
    → IsSound m l
    → m.anchor.status ≡ pushing e
    → (h p : ℕ) × (k : List ℕ) × (view e l ≡ h ∷ p ∷ k)
      × (end_of e m.anchor ≡ h)
      × (link (opp e) m h ≡ p)
      × IsPushed m h
      × IsPushed m p
behind m e l s st =
    let sh = Shape-view m e l s.shape in
    let (h, p, k, v) = two_of m e (view e l) sh (s.two e st) in
    let sh' = subst (λ z. Shape m e z) v sh in
    (
      h,
      p,
      k,
      v,
      sh'.near.starts,
      (Toward-unsnoc (link (opp e) m) p h (rev k)
          (sh'.far.firm (λ z. pushing_ne e (sym st ∙ z)))).1,
      sh'.all.0,
      sh'.all.1.0,
    )

-- The anchor of a stable deque is written, and nodes of the writer may be published.
module _ (m : Memory) (t : ℕ) (l l' : List ℕ) (a' : Anchor) (owner' : ℕ → Owner) (pushes' : ℕ)
    (quiet : (e : End) → m.anchor.status ≢ pushing e)
    (owners : (a n : ℕ) → m.owner a ≡ pushed n → owner' a ≡ pushed n)
    (theirs : (j a : ℕ) → j ≢ t → m.owner a ≡ fresh j → owner' a ≡ fresh j)
    (ends : (e : End) (n : ℕ) → a'.status ≡ pushing e → m.owner (end_of e a') ≢ pushed n)
    (order : (e : End) → Kept m (view e l) (view e l')) where
  abbrev pub turned : Memory
  turned = record m { anchor = a'; owner = owner'; pushes = pushes' }

  never : {A : Type 0} (e : End) (a : Anchor) → Snap m e a → m.anchor ≡ a → A
  never e a s h = absurd (quiet e (ap (λ z. z.status) h ∙ s.0))

  fresh_end : (e : End) (y : ℕ) → IsPushed m y → a'.status ≡ pushing e → end_of e a' ≢ y
  fresh_end e y (nz, n, o) st h = ends e n st (ap (m.owner) h ∙ o)

  pub Grows-turn : Grows m turned t l l'
  Grows-turn = record {
    mine = λ j a ne o. (theirs j a ne o, refl, λ e. refl);
    published = owners;
    value = λ a p. refl;
    returns = λ e a s h.
        absurd (fresh_end e (end_of e a) s.1 (ap (λ z. z.status) h ∙ s.0) (ap (end_of e) h));
    inner = λ e a s h. never e a s h;
    fixed = λ e a s h f. never e a s h;
    leaves = λ e a s h. never e a s h;
    climbs = λ e p q. born_le m turned owners (link e m p);
    settled = λ e y p h st. fresh_end e y p st;
    kept = λ e x y p q i. order e x y p q i;
    steady = λ e x y p ne d i h. refl;
  }

-- No node of the deque stops being one, and the new anchor is stable.
pub IsSound-stable :
    (m : Memory) (l l' : List ℕ) (a' : Anchor)
    → IsSound m l
    → a'.status ≡ stable
    → Shape (record m { anchor = a' }) left l'
    → IsSound (record m { anchor = a' }) l'
IsSound-stable m l l' a' s st sh = record {
  shape = sh;
  two = λ e h. absurd (stable_ne e (sym st ∙ h));
  newest = λ e h. absurd (stable_ne e (sym st ∙ h));
  below = s.below;
  apart = s.apart;
  links = s.links;
  null = s.null;
}
