-- ===== src/Deque/Newest.antt =====
-- What a thread that sees the deque pushing knows of the node that was just pushed.
use amino.Prelude.{ℕ, ◌≡◌, ◌≢◌, ◌≤◌, inl, inr, refl, sym, ◌∙◌, ap, subst, List, arith, ℕ_discrete}
use amino.Blocking.{End}
use amino.Deque.Memory.{Anchor, end_of, pushed, Memory}
use amino.Deque.Shape.{IsPushed, pushing_inj}
use amino.Deque.Invariant.{born, Old, Snap, Inner, Older, IsSound}
use amino.Deque.Grows.{zero_born}
use amino.Deque.Push.{second}

module _ {m : Memory} (t : ℕ) (l : List ℕ) (s : IsSound m l) where
  -- The node behind the one that was just pushed is an old one.
  pub prev-IsPushed :
      (e : End) (a : Anchor) (prev : ℕ)
      → Snap m e a
      → m.anchor ≡ a
      → Inner m e a prev
      → IsPushed m prev
  prev-IsPushed e a prev sn h i = subst (λ z. IsPushed m z) (i h) (second s e a h sn)

  -- Any other node is older than the one that was just pushed.
  pub older :
      (e : End) (a : Anchor) (next : ℕ)
      → Snap m e a
      → m.anchor ≡ a
      → Old m next
      → next ≢ end_of e a
      → Older m e a next
  older e a next sn h (inl z) ne =
      let (n, on, c) = s.newest e (ap (λ b. b.status) h ∙ sn.0) in
      ground (
        arith,
        ap (λ b. born (m.owner (end_of e b))) (sym h) ∙ ap born on,
        zero_born (m.owner next) (λ j y. s.null j (ap (m.owner) (sym z) ∙ y)),
      )
  older e a next sn h (inr (nz, j, oj)) ne =
      let (n, on, c) = s.newest e (ap (λ b. b.status) h ∙ sn.0) in
      let ox : m.owner (end_of e a) ≡ pushed n = ap (λ b. m.owner (end_of e b)) (sym h) ∙ on in
      let differ : j ≢ n = λ q. ne (s.apart next (end_of e a) n (oj ∙ ap pushed q) ox) in
      ground (arith, ap born ox, ap born oj, s.below next j oj, c, differ)

  -- Nothing is newer.
  pub newest_last :
      (e : End) (b : ℕ)
      → Snap m e m.anchor
      → Old m b
      → born (m.owner b) ≤ born (m.owner (end_of e m.anchor))
  newest_last e b sn o = elim (ℕ_discrete b (end_of e m.anchor)) [
    | yes y ↦ ground (arith, y)
    | no ne ↦ ground (arith, older e m.anchor b sn refl o ne)
  ]

  -- Who sees the anchor pushing sees the same end pushing.
  pub same_end : (e i : End) → Snap m e m.anchor → (a : Anchor) → Snap m i a → m.anchor ≡ a → e ≡ i
  same_end e i sn a sn' h = pushing_inj e i (sym sn.0 ∙ ap (λ b. b.status) h ∙ sn'.0)
