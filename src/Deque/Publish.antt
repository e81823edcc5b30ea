-- ===== src/Deque/Publish.antt =====
-- include/amino/deque.h, `pushRight` and `pushLeft`: the new node is published with a new anchor.
use amino.Prelude.{
  ℕ, ◌+◌, ◌≡◌, ◌≢◌, ◌⊎◌, inl, inr, refl, sym, ◌∙◌, ap, subst, List, [], ◌∷◌, ◌++◌, arith, update,
  map, ℕ_discrete,
}
use amino.Blocking.{End, left, right, added}
use amino.Blocking.Order.{Spec, add_left, add_right}
use amino.Deque.Memory.{
  opp, stable, pushing, Anchor, end_of, anchor_of, pushed, Memory, link, Pc, idle, stab_left, done,
}
use amino.Deque.Views.{rev}
use amino.Deque.Lists.{map-snoc, last-ne}
use amino.Deque.Shape.{IsPushed, Shape, end_of-anchor_of, stable_ne, pushing_inj}
use amino.Deque.Ends.{publish, Shape-first, Shape-push}
use amino.Deque.Invariant.{view, contents, Old, IsNew, IsFine, IsSound}
use amino.Deque.Grows.{Grows}
use amino.Deque.Good.{Good}
use amino.Deque.Kept.{Kept, Kept-cons, Kept-snoc, Kept-view}
use amino.Deque.Turn.{
  view-view, Shape-view, Shape-back, ends_agree, ends_differ, none_of, Grows-turn,
}

add-Spec :
    (e : End) (f : ℕ → ℕ) (node d : ℕ) (v : List ℕ)
    → f node ≡ d
    → Spec (added e d) (map f (view e v)) (map f (view e (node ∷ v)))
add-Spec left f node d v h =
    subst (λ z. Spec (added left d) (map f v) (z ∷ map f v)) (sym h) add_left
add-Spec right f node d v h =
    subst (λ z. Spec (added right d) (map f (rev v)) z)
      (sym (map-snoc f node (rev v) ∙ ap (λ z. map f (rev v) ++ z ∷ []) h)) add_right

module _ {m : Memory} (t : ℕ) (l : List ℕ) (s : IsSound m l) where
  -- A node is published with a new anchor.
  module _ (d node : ℕ) (e : End) (v : List ℕ) (a' : Anchor) (at : view e l ≡ v)
      (new : IsNew m t d node) (quiet : (e : End) → m.anchor.status ≢ pushing e)
      (two : (e : End) → a'.status ≡ pushing e → a'.at_left ≢ a'.at_right)
      (ends : (e : End) → a'.status ≡ pushing e → end_of e a' ≡ node)
      (shape : Shape (publish node a' m) e (node ∷ v)) where
    out : (n : ℕ) → m.owner node ≢ pushed n
    out n o = ground (arith, o, new.0)

    back : view e v ≡ l
    back = ap (view e) (sym at) ∙ view-view e l

    owners : (a n : ℕ) → m.owner a ≡ pushed n → update m.owner node (pushed m.pushes) a ≡ pushed n
    owners a n o = ground (arith, o, new.0)

    Old-publish : (a : ℕ) → Old m a → Old (publish node a' m) a
    Old-publish a (inl z) = inl z
    Old-publish a (inr p) = inr (p.0, p.1, owners a p.1 p.2)

    linked :
        (i : End) (a : ℕ)
        → IsPushed (publish node a' m) a
        → (node ≡ a) ⊎ (node ≢ a)
        → Old (publish node a' m) (link i m a)
    linked i a p (inl y) =
        subst (λ z. Old (publish node a' m) (link i m z)) y (Old-publish (link i m node) (new.3 i))
    linked i a p (inr ne) =
        Old-publish (link i m a) (s.links i a (p.0, p.1, ground (arith, p.2, ne)))

    sound : IsSound (publish node a' m) (view e (node ∷ v))
    sound = record {
      shape = Shape-back (publish node a' m) e (node ∷ v) shape;
      two = two;
      newest = λ i h. (m.pushes, ground (arith, ends i h), ground arith);
      below = λ a n o. ground (arith, o, s.below a n);
      apart = λ a b n o o'. ground (arith, o, o', s.apart a b n, s.below a n, s.below b n);
      links = λ i a p. linked i a p (elim (ℕ_discrete node a) [ yes y ↦ inl y | no ne ↦ inr ne ]);
      null = λ n o. ground (arith, o, new.1, s.null n);
    }

    grows : Grows m (publish node a' m) t l (view e (node ∷ v))
    grows =
        Grows-turn m t l (view e (node ∷ v)) a' (update m.owner node (pushed m.pushes))
          (m.pushes + 1) quiet owners (λ j a ne o. ground (arith, o, new.0, ne))
          (λ i n h o. out n (ap (m.owner) (sym (ends i h)) ∙ o))
          (subst (λ z. (i : End) → Kept m (view i z) (view i (view e (node ∷ v)))) back
            (Kept-view m e v (node ∷ v) (Kept-cons m node out v) (Kept-snoc m node out (rev v))))

    publishes :
        (p' : Pc)
        → IsFine (publish node a' m) (view e (node ∷ v)) t p'
        → Good m (publish node a' m) t p' l (added e d)
    publishes p' f = record {
      after = view e (node ∷ v);
      grows = grows;
      own = f;
      sound = sound;
      spec =
          subst (λ z. Spec (added e d) (contents m z) (contents m (view e (node ∷ v)))) back
            (add-Spec e (m.value) node d v new.2);
    }

  -- The first node comes to an empty deque.
  pub first_node :
      (e : End) (d node : ℕ)
      → end_of e m.anchor ≡ 0
      → IsNew m t d node
      → Good m (publish node (anchor_of e node node stable) m) t idle l (added e d)
  first_node e d node z new =
      let sh = Shape-view m e l s.shape in
      let at = none_of m e (view e l) sh z in
      publishes d node e [] (anchor_of e node node stable) at new
        (λ i y. empty_quiet i (subst (λ v. Shape m e v) at sh) y) (λ i y. absurd (stable_ne i y))
        (λ i y. absurd (stable_ne i y)) (Shape-first m e node new.1) idle tt
    where
      empty_quiet : (i : End) → Shape m e [] → m.anchor.status ≢ pushing i
      empty_quiet i sh y = ends_differ e m.anchor (s.two i y) (sh.near.starts ∙ sym (sh.far.starts))

  -- A node comes to end `e` of a deque that is not empty.
  pub next_node :
      (e : End) (d node h : ℕ) (k : List ℕ)
      → m.anchor.status ≡ stable
      → view e l ≡ h ∷ k
      → IsNew m t d node
      → link (opp e) m node ≡ h
      → let a : Anchor = anchor_of e node (end_of (opp e) m.anchor) (pushing e) in
        Good m (publish node a m) t (stab_left e a done) l (added e d)
  next_node e d node h k st at new to =
      publishes d node e (h ∷ k) a at new (λ i z. stable_ne i (sym st ∙ z)) two ends shape
        (stab_left e a done)
        (
          tt,
          (
            refl,
            subst (λ z. IsPushed (publish node a m) z) (sym start) (new.1, m.pushes, ground arith),
          ),
        )
    where
      a : Anchor
      a = anchor_of e node (end_of (opp e) m.anchor) (pushing e)

      start : end_of e a ≡ node
      start = end_of-anchor_of e node (end_of (opp e) m.anchor) (pushing e)

      shape : Shape (publish node a m) e (node ∷ h ∷ k)
      shape =
          Shape-push m e t node h k (subst (λ z. Shape m e z) at (Shape-view m e l s.shape)) st
            new.1 new.0 to

      two : (i : End) → a.status ≡ pushing i → a.at_left ≢ a.at_right
      two i z =
          ends_agree e a
            (λ y. last-ne node h k (shape.nodup) (sym (shape.far.starts) ∙ sym y ∙ start))

      ends : (i : End) → a.status ≡ pushing i → end_of i a ≡ node
      ends i z = subst (λ j. end_of j a ≡ node) (pushing_inj e i z) start
