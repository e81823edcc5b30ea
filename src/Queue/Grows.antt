-- ===== src/Queue/Grows.antt =====
-- What a step of one thread leaves as it is for the others.
use amino.Prelude.{ℕ, ◌≡◌, ◌≢◌, ◌⊎◌, inl, inr, sym, ◌∙◌}
use amino.Queue.Memory.{
  fresh, removed, Memory, Pc, idle, enq_load, enq_check, enq_next, enq_recheck, enq_help, enq_cas,
  enq_swing, deq_load, deq_check, deq_next, deq_recheck, deq_tail, deq_help, deq_data, deq_cas,
}
use amino.Queue.Invariant.{WasHead, TailPast, IsNew, IsPublished, Follows, IsFine}

-- `Grows m m' t`: a step of thread t from `m` to `m'`.
pub record Grows (m m' : Memory) (t : ℕ) : Type 0 where
  pub mine :
      (j a : ℕ)
      → j ≢ t
      → m.owner a ≡ fresh j
      → (m'.owner a ≡ fresh j) × (m'.value a ≡ m.value a) × (m'.next a ≡ m.next a)
  pub published : (a : ℕ) → IsPublished m a → IsPublished m' a × (m'.value a ≡ m.value a)
  pub once : (a : ℕ) → IsPublished m a → m.next a ≢ 0 → m'.next a ≡ m.next a
  pub gone : (a : ℕ) → m.owner a ≡ removed → m'.owner a ≡ removed
  pub head : (a : ℕ) → m.head ≡ a → (m'.head ≡ a) ⊎ (m'.owner a ≡ removed)
  pub tail : (a : ℕ) → m.head ≡ a → m.tail ≢ a → (m'.tail ≢ a) ⊎ (m'.owner a ≡ removed)

module _ {m m' : Memory} {t : ℕ} (g : Grows m m' t) where
  pub WasHead-grows : (p : ℕ) → WasHead m p → WasHead m' p
  WasHead-grows p (inl h) = g.head p h
  WasHead-grows p (inr r) = inr (g.gone p r)

  pub TailPast-grows : (p : ℕ) → TailPast m p → TailPast m' p
  TailPast-grows p (inr r) = inr (g.gone p r)
  TailPast-grows p (inl (h, n)) = elim (g.head p h) [
    | inr r ↦ inr r
    | inl h' ↦ elim (g.tail p h n) [ inr r ↦ inr r | inl n' ↦ inl (h', n') ]
  ]

  pub IsPublished-grows : (p : ℕ) → IsPublished m p → IsPublished m' p
  IsPublished-grows p h = (g.published p h).0

  pub Follows-grows : (p nx : ℕ) → Follows m p nx → Follows m' p nx
  Follows-grows p nx (pub_p, nz, e) =
      (IsPublished-grows p pub_p, nz, g.once p pub_p (λ z. nz (sym e ∙ z)) ∙ e)

  pub IsNew-grows : (j d node : ℕ) → j ≢ t → IsNew m j d node → IsNew m' j d node
  IsNew-grows j d node ne (o, nz, v, x) = let k = g.mine j node ne o in (k.0, nz, k.1 ∙ v, k.2 ∙ x)

  -- What another thread knows stays true.
  pub IsFine-grows : (j : ℕ) (p : Pc) → j ≢ t → IsFine m j p → IsFine m' j p
  IsFine-grows j idle ne f = tt
  IsFine-grows j (enq_load d node) ne f = IsNew-grows j d node ne f
  IsFine-grows j (enq_check d node pt) ne f = IsNew-grows j d node ne f
  IsFine-grows j (enq_next d node pt) ne f = (IsNew-grows j d node ne f.0, IsPublished-grows pt f.1)
  IsFine-grows j (enq_recheck d node pt nx) ne (new, p, inl z) =
      (IsNew-grows j d node ne new, IsPublished-grows pt p, inl z)
  IsFine-grows j (enq_recheck d node pt nx) ne (new, p, inr y) =
      (IsNew-grows j d node ne new, IsPublished-grows pt p, inr (Follows-grows pt nx y))
  IsFine-grows j (enq_help d node pt nx) ne f =
      (IsNew-grows j d node ne f.0, Follows-grows pt nx f.1)
  IsFine-grows j (enq_cas d node pt) ne f = (IsNew-grows j d node ne f.0, IsPublished-grows pt f.1)
  IsFine-grows j (enq_swing node pt) ne f = Follows-grows pt node f
  IsFine-grows j deq_load ne f = tt
  IsFine-grows j (deq_check ph) ne f = tt
  IsFine-grows j (deq_next ph) ne f = (IsPublished-grows ph f.0, WasHead-grows ph f.1)
  IsFine-grows j (deq_recheck ph nx) ne f = (Follows-grows ph nx f.0, WasHead-grows ph f.1)
  IsFine-grows j (deq_tail ph nx) ne f = (Follows-grows ph nx f.0, WasHead-grows ph f.1)
  IsFine-grows j (deq_help ph nx) ne f = (Follows-grows ph nx f.0, WasHead-grows ph f.1)
  IsFine-grows j (deq_data ph nx) ne (y, past, inl p) =
      (Follows-grows ph nx y, TailPast-grows ph past, inl (IsPublished-grows nx p))
  IsFine-grows j (deq_data ph nx) ne (y, past, inr gone) =
      (Follows-grows ph nx y, TailPast-grows ph past, inr (g.gone ph gone))
  IsFine-grows j (deq_cas ph nx r) ne (y, past, inl (p, v)) = (
    Follows-grows ph nx y,
    TailPast-grows ph past,
    inl (IsPublished-grows nx p, (g.published nx p).1 ∙ v),
  )
  IsFine-grows j (deq_cas ph nx r) ne (y, past, inr gone) =
      (Follows-grows ph nx y, TailPast-grows ph past, inr (g.gone ph gone))
