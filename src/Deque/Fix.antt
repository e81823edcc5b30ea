-- ===== src/Deque/Fix.antt =====
-- include/amino/deque.h, `stabilizeRight` and `stabilizeLeft`: the missing link is set.
use amino.Prelude.{
  ℕ, ◌≡◌, ◌≢◌, ◌⊎◌, ◌≤◌, inl, inr, refl, sym, ◌∙◌, ap, subst, List, ◌∷◌, arith, ℕ_discrete,
}
use amino.Blocking.{End, left, right, silent}
use amino.Blocking.Order.{skip}
use amino.Queue.Invariant.{In}
use amino.Deque.Memory.{
  opp, Anchor, end_of, Memory, link, set_link, After, done, push, pop, stab_cas,
}
use amino.Deque.Shape.{IsPushed, Shape, link-opp-set_link}
use amino.Deque.Ends.{Shape-fix}
use amino.Deque.Invariant.{view, born, Ahead, Old, Snap, Settled, IsFineAfter, IsSound}
use amino.Deque.Good.{Good}
use amino.Deque.Push.{link-store, stored}
use amino.Deque.Turn.{view-view, Shape-view, Shape-back, behind}
use amino.Deque.Newest.{prev-IsPushed, newest_last, same_end}

either : (e i : End) → (e ≡ i) ⊎ (opp e ≡ i)
either left left = inl refl
either left right = inr refl
either right left = inr refl
either right right = inl refl

module _ {m : Memory} (t : ℕ) (l : List ℕ) (s : IsSound m l) where
  After-fix :
      (e : End) (prev x : ℕ) (k : After)
      → IsPushed m prev
      → IsFineAfter m t k
      → IsFineAfter (set_link e prev x m) t k
  After-fix e prev x done p f = tt
  After-fix e prev x (push i d node) p (o, nz, v, y) = (
    o,
    nz,
    v,
    λ j.
        subst (λ z. Old m z)
          (sym (link-store t l s e j prev x node (λ z. ground (arith, z, o, p.2)))) (y j),
  )
  After-fix e prev x (pop i) p f = tt

  link_cases :
      (e i : End) (prev x a : ℕ)
      → (link i (set_link e prev x m) a ≡ link i m a) ⊎ (link i (set_link e prev x m) a ≡ x)
  link_cases e i prev x a = elim (ℕ_discrete prev a) [
    | yes y ↦ at_prev e i y
    | no ne ↦ inl (link-store t l s e i prev x a ne)
  ]
    where
      at_prev :
          (e i : End)
          → prev ≡ a
          → (link i (set_link e prev x m) a ≡ link i m a) ⊎ (link i (set_link e prev x m) a ≡ x)
      at_prev left left y = inr (ground (arith, y))
      at_prev left right y = inl refl
      at_prev right left y = inl refl
      at_prev right right y = inr (ground (arith, y))

  -- The link to the node that was just pushed is set.
  pub fixes :
      (e : End) (prev : ℕ) (k : After)
      → IsFineAfter m t k
      → Snap m e m.anchor
      → link (opp e) m (end_of e m.anchor) ≡ prev
      → Good m (set_link e prev (end_of e m.anchor) m) t (stab_cas e m.anchor k) l silent
  fixes e prev k f sn at_p = record {
    after = l;
    grows = record {
      mine = λ j a ne o.
          (o, refl, λ i. link-store t l s e i prev x a (λ y. ground (arith, y, o, old_prev.2)));
      published = λ a n o. o;
      value = λ a p. refl;
      returns = λ i a sn' h. h;
      inner = λ i a sn' h.
          subst (λ j. link (opp j) m' (end_of i a) ≡ link (opp j) m (end_of i a))
            (same_end t l s e i sn a sn' h) (outward (end_of i a));
      fixed = λ i a sn' h y. now_fixed i a sn' h;
      leaves = λ i a sn' h. inl h;
      climbs = λ i p q. climbs i p q (link_cases e i prev x p);
      settled = λ i y p d. d;
      kept = λ i y z p q n. (n, λ h. h);
      steady = λ i y z p ne d n h. steady i y z ne d n h;
    };
    own = (
      After-fix e prev x k old_prev f,
      sn,
      λ z. ap (link e m') (outward x) ∙ now_fixed e m.anchor sn refl,
    );
    sound = record {
      shape = shape;
      two = s.two;
      newest = s.newest;
      below = s.below;
      apart = s.apart;
      links = λ i a p. links i a p (link_cases e i prev x a);
      null = s.null;
    };
    spec = skip;
  }
    where
      x : ℕ
      x = end_of e m.anchor

      m' : Memory
      m' = set_link e prev x m

      old_prev : IsPushed m prev
      old_prev = prev-IsPushed t l s e m.anchor prev sn refl (λ z. at_p)

      outward : (a : ℕ) → link (opp e) m' a ≡ link (opp e) m a
      outward a = ap (λ g. g a) (link-opp-set_link e m prev x)

      now_fixed :
          (i : End) (a : Anchor)
          → Snap m i a
          → m.anchor ≡ a
          → link i m' (link (opp i) m (end_of i a)) ≡ end_of i a
      now_fixed i a sn' h =
          subst (λ b. link i m' (link (opp i) m (end_of i b)) ≡ end_of i b) h
            (subst (λ j. link j m' (link (opp j) m (end_of j m.anchor)) ≡ end_of j m.anchor)
              (same_end t l s e i sn a sn' h) (ap (link e m') at_p ∙ stored t l s e prev x))

      climbs :
          (i : End) (p : ℕ)
          → IsPushed m p
          → (link i m' p ≡ link i m p) ⊎ (link i m' p ≡ x)
          → born (m.owner (link i m p)) ≤ born (m.owner (link i m' p))
      climbs i p q (inl y) = ground (arith, ap (λ z. born (m.owner z)) y)
      climbs i p q (inr y) =
          ground (
            arith,
            ap (λ z. born (m.owner z)) y,
            newest_last t l s e (link i m p) sn (s.links i p q),
          )

      links :
          (i : End) (a : ℕ)
          → IsPushed m a
          → (link i m' a ≡ link i m a) ⊎ (link i m' a ≡ x)
          → Old m (link i m' a)
      links i a p (inl y) = subst (λ z. Old m z) (sym y) (s.links i a p)
      links i a p (inr y) = subst (λ z. Old m z) (sym y) (inr sn.1)

      shape : Shape m' left l
      shape =
          let (h, p, r, at, en, ln, hx, hp) = behind m e l s sn.0 in
          let same : p ≡ prev = sym ln ∙ ap (link (opp e) m) (sym en) ∙ at_p in
          subst (λ z. Shape m' left z) (ap (view e) (sym at) ∙ view-view e l)
            (Shape-back m' e (h ∷ p ∷ r) (
              subst (λ z. Shape (set_link e z x m) e (h ∷ p ∷ r)) same
                (subst (λ z. Shape (set_link e p z m) e (h ∷ p ∷ r)) (sym en)
                  (Shape-fix m e h p r (subst (λ z. Shape m e z) at (Shape-view m e l s.shape))))))

      steady_here :
          (y z : ℕ) → y ≢ z → Settled m e z → Ahead z y (view e l) → link e m' y ≡ link e m y
      steady_here y z ne d h = elim (ℕ_discrete prev y) [
        | no other ↦ link-store t l s e e prev x y other
        | yes q ↦ absurd (
            let (b, p, r, at, en, ln, hx, hp) = behind m e l s sn.0 in
            not_prev b p r en (sym ln ∙ ap (link (opp e) m) (sym en) ∙ at_p ∙ q)
              (subst (λ v. Ahead z y v) at h))
      ]
        where
          not_prev : (b p : ℕ) (r : List ℕ) → x ≡ b → p ≡ y → Ahead z y (b ∷ p ∷ r) → ⊥
          not_prev b p r en q (inl w) = d sn.0 (en ∙ w)
          not_prev b p r en q (inr (w, inl u)) = ne (sym q ∙ u)
          not_prev b p r en q (inr (w, inr u)) = u.0 q

      steady :
          (i : End) (y z : ℕ)
          → y ≢ z
          → Settled m (opp i) z
          → In z (view (opp i) l)
          → Ahead z y (view (opp i) l)
          → link (opp i) m' y ≡ link (opp i) m y
      steady i y z ne d n h = elim (either e (opp i)) [
        | inl q ↦
            subst (λ j. Settled m j z → Ahead z y (view j l) → link j m' y ≡ link j m y) q
              (λ d' h'. steady_here y z ne d' h') d h
        | inr q ↦ subst (λ j. link j m' y ≡ link j m y) q (outward y)
      ]
