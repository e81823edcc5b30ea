-- ===== src/Ordered/Grows.antt =====
-- What a step of one thread leaves as it is for the others.
use amino.Prelude.{ℕ, Bool, true, false, ◌≡◌, ◌≢◌, ◌<◌, ◌⊎◌, inl, inr, sym, ◌∙◌, subst}
use amino.Ordered.Memory.{
  fresh, unlinked, Memory, Goal, inserting, removing, searching, cleaning, key_of, Pc, idle,
  find_load, find_check, loop, reread, recheck, unlink, add_store, add_cas, remove_mark, remove_cut,
}
use amino.Ordered.Invariant.{IsPublished, Old, IsNew, IsPrev, IsBeyond, IsDead, IsFineGoal, IsFine}

-- `Grows m m' t`: a step of thread t from `m` to `m'`.
pub record Grows (m m' : Memory) (t : ℕ) : Type 0 where
  pub mine :
      (j a : ℕ)
      → j ≢ t
      → m.owner a ≡ fresh j
      → (m'.owner a ≡ fresh j)
        × (m'.key a ≡ m.key a)
        × (m'.marked a ≡ m.marked a)
        × (m'.next a ≡ m.next a)
  pub published : (a : ℕ) → IsPublished m a → IsPublished m' a × (m'.key a ≡ m.key a)
  pub gone : (a : ℕ) → m.owner a ≡ unlinked → m'.owner a ≡ unlinked
  pub dead :
      (a : ℕ) → IsPublished m a → m.marked a ≡ true → (m'.marked a ≡ true) × (m'.next a ≡ m.next a)

module _ {m m' : Memory} {t : ℕ} (g : Grows m m' t) where
  Published-grows : (a : ℕ) → IsPublished m a → IsPublished m' a
  Published-grows a p = (g.published a p).0

  Old-grows : (a : ℕ) → Old m a → Old m' a
  Old-grows a (inl z) = inl z
  Old-grows a (inr p) = inr (Published-grows a p)

  Next-grows :
      (cur nx : ℕ) → Old m nx ⊎ (m.owner cur ≡ unlinked) → Old m' nx ⊎ (m'.owner cur ≡ unlinked)
  Next-grows cur nx (inl o) = inl (Old-grows nx o)
  Next-grows cur nx (inr r) = inr (g.gone cur r)

  IsPrev-grows : (d a : ℕ) → IsPrev m d a → IsPrev m' d a
  IsPrev-grows d a (inl z) = inl z
  IsPrev-grows d a (inr (p, h)) =
      let (p', k) = g.published a p in inr (p', subst (λ z. z < d) (sym k) h)

  IsBeyond-grows : (d a : ℕ) → IsBeyond m d a → IsBeyond m' d a
  IsBeyond-grows d a (inl z) = inl z
  IsBeyond-grows d a (inr (p, h)) =
      let (p', k) = g.published a p in inr (p', subst (λ z. d < z) (sym k) h)

  IsDead-grows : (a nx : ℕ) → IsPublished m a → IsDead m a nx → IsDead m' a nx
  IsDead-grows a nx p (k, h) = let (k', h') = g.dead a p k in (k', h' ∙ h)

  IsNew-grows : (j d node : ℕ) → j ≢ t → IsNew m j d node → IsNew m' j d node
  IsNew-grows j d node ne (o, nz, k, b) =
      let (o', k', b', x') = g.mine j node ne o in (o', nz, k' ∙ k, b' ∙ b)

  Goal-grows : (j : ℕ) (q : Goal) → j ≢ t → IsFineGoal m j q → IsFineGoal m' j q
  Goal-grows j (inserting d node) ne f = IsNew-grows j d node ne f
  Goal-grows j (removing d) ne f = tt
  Goal-grows j (searching d) ne f = tt
  Goal-grows j (cleaning d) ne f = tt

  module _ (saw saw' : ℕ → ℕ → Bool → Type 0) where
    -- What another thread knows stays true.
    pub IsFine-grows :
        (j : ℕ) (p : Pc)
        → j ≢ t
        → ((d : ℕ) (b : Bool) → saw j d b → saw' j d b)
        → IsFine m saw j p
        → IsFine m' saw' j p
    IsFine-grows j idle ne w f = tt
    IsFine-grows j (find_load q) ne w f = Goal-grows j q ne f
    IsFine-grows j (find_check q cur) ne w f = Goal-grows j q ne f
    IsFine-grows j (loop q prev cur) ne w (f, p, o, s) = (
      Goal-grows j q ne f,
      IsPrev-grows (key_of q) prev p,
      Old-grows cur o,
      λ z. w (key_of q) false (s z),
    )
    IsFine-grows j (reread q prev cur nx mk) ne w (f, p, c, d) = (
      Goal-grows j q ne f,
      IsPrev-grows (key_of q) prev p,
      Published-grows cur c,
      λ z. IsDead-grows cur nx c (d z),
    )
    IsFine-grows j (recheck q prev cur nx mk) ne w (f, p, c, o, d, i, u) = (
      Goal-grows j q ne f,
      IsPrev-grows (key_of q) prev p,
      Published-grows cur c,
      Next-grows cur nx o,
      (λ z. IsDead-grows cur nx c (d z)),
      (λ z k. w (key_of q) true (i z (sym (g.published cur c).1 ∙ k))),
      λ z n k. w (key_of q) false (u z n (subst (λ y. y < key_of q) (g.published cur c).1 k)),
    )
    IsFine-grows j (unlink q prev cur nx) ne w (f, p, c, d) = (
      Goal-grows j q ne f,
      IsPrev-grows (key_of q) prev p,
      Published-grows cur c,
      IsDead-grows cur nx c d,
    )
    IsFine-grows j (add_store d node prev cur) ne w (f, p, b) =
        (IsNew-grows j d node ne f, IsPrev-grows d prev p, IsBeyond-grows d cur b)
    IsFine-grows j (add_cas d node prev cur) ne w (f, p, b, n) = (
      IsNew-grows j d node ne f,
      IsPrev-grows d prev p,
      IsBeyond-grows d cur b,
      (g.mine j node ne f.0).3 ∙ n,
    )
    IsFine-grows j (remove_mark d prev cur nx) ne w (p, c, k) =
        (IsPrev-grows d prev p, Published-grows cur c, (g.published cur c).1 ∙ k)
    IsFine-grows j (remove_cut d prev cur nx) ne w (p, c, x) =
        (IsPrev-grows d prev p, Published-grows cur c, IsDead-grows cur nx c x)
