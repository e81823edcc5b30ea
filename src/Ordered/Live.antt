-- ===== src/Ordered/Live.antt =====
-- The keys of the nodes without a mark, as the ordered set.
use amino.Prelude.{
  ℕ, zero, suc, ◌≡◌, ◌≢◌, ◌<◌, ◌⊎◌, inl, inr, refl, sym, ◌∙◌, ap, Bool, true, false, List, [], ◌∷◌,
  arith, All, NotIn, update, contains, if◌then◌else◌,
}
use amino.Queue.Invariant.{In}
use amino.Ordered.System.{insert, delete}
use amino.Ordered.Splice.{
  Linked, Rising, Splice, here, there, Splice-rank, Rising-above, Rising-NotIn,
}

abbrev pub live : (ℕ → Bool) → (ℕ → ℕ) → List ℕ → List ℕ
live marked key [] = []
live marked key (a ∷ l) = let rest = live marked key l in if marked a then rest else key a ∷ rest

-- Where a cell stands in the order: the head before all nodes.
abbrev pub rank : (ℕ → ℕ) → ℕ → ℕ
rank key zero = 0
rank key (suc a) = suc (key (suc a))

pub rank_node : (key : ℕ → ℕ) (a : ℕ) → a ≢ 0 → rank key a ≡ suc (key a)
rank_node key zero h = absurd (h refl)
rank_node key (suc a) h = refl

pub rank_key : (key : ℕ → ℕ) (p a : ℕ) → rank key p < rank key a → rank key a ≡ suc (key a)
rank_key key p zero h = absurd (omega arith)
rank_key key p (suc a) h = refl

module _ (marked : ℕ → Bool) (key : ℕ → ℕ) where
  pub live-update :
      (c d : ℕ) (l : List ℕ) → NotIn c l → live marked (update key c d) l ≡ live marked key l
  live-update c d [] n = refl
  live-update c d (a ∷ l) n = ground (arith, n.0, live-update c d l n.1)

  pub live-cong :
      (marked' : ℕ → Bool) (key' : ℕ → ℕ) (l : List ℕ)
      → All (λ a. (marked' a ≡ marked a) × (key' a ≡ key a)) l
      → live marked' key' l ≡ live marked key l
  live-cong marked' key' [] h = refl
  live-cong marked' key' (a ∷ l) h = ground (arith, h.0, live-cong marked' key' l h.1)

  -- All nodes of the list have larger keys than `d`.
  pub contains-over :
      (d p : ℕ) (l : List ℕ)
      → Rising (rank key) p l
      → d < rank key p
      → contains d (live marked key l) ≡ false
  unfolding contains
  contains-over d p [] g h = refl
  contains-over d p (a ∷ l) g h =
      ground (arith, contains-over d a l g.1 (omega (arith, g.0, h)), g.0, h, rank_key key p a g.0)

  insert-over :
      (d p : ℕ) (l : List ℕ)
      → Rising (rank key) p l
      → d < rank key p
      → insert d (live marked key l) ≡ d ∷ live marked key l
  unfolding insert
  insert-over d p [] g h = refl
  insert-over d p (a ∷ l) g h =
      ground (arith, insert-over d a l g.1 (omega (arith, g.0, h)), g.0, h, rank_key key p a g.0)

  -- No node behind `prev` is as small as `d`, and those before are smaller.
  module _ (f : ℕ → ℕ) (prev d : ℕ) (small : rank key prev < suc d)
      (next : (f prev ≡ 0) ⊎ (d < key (f prev))) where
    beyond_first :
        (p b : ℕ) (l : List ℕ)
        → p ≡ prev
        → Linked f p (b ∷ l)
        → Rising (rank key) p (b ∷ l)
        → (d < key b) × (d < rank key b)
    beyond_first p b l e k g = elim next [
      | inl z ↦ absurd (omega (arith, g.0, ap (rank key) (sym k.0 ∙ ap f e ∙ z)))
      | inr h ↦
          let big : d < key b = omega (arith, h, ap key (sym k.0 ∙ ap f e)) in
          (big, omega (arith, big, rank_key key p b g.0))
    ]

    pub absent :
        (n p : ℕ) (l l' : List ℕ)
        → Splice prev n p l l'
        → Linked f p l
        → Rising (rank key) p l
        → contains d (live marked key l) ≡ false
    unfolding contains
    absent n p [] l' (here e) k g = refl
    absent n p (b ∷ l) l' (here e) k g =
        let (big, r) = beyond_first p b l e k g in ground (arith, big, contains-over d b l g.1 r)
    absent n p l l' (there {a = a} {l = i} {l' = i'} s) k g = ground (
      arith,
      absent n a i i' s k.1 g.1,
      Splice-rank (rank key) prev n a i i' s g.1,
      rank_key key p a g.0,
      small,
    )

    pub live-in :
        (n p : ℕ) (l l' : List ℕ)
        → Splice prev n p l l'
        → Linked f p l
        → Rising (rank key) p l
        → marked n ≡ false
        → key n ≡ d
        → live marked key l' ≡ insert d (live marked key l)
    unfolding insert
    live-in n p [] l' (here e) k g mk kn = ground (arith, mk, kn)
    live-in n p (b ∷ l) l' (here e) k g mk kn =
        let (big, r) = beyond_first p b l e k g in
        ground (arith, mk, kn, big, insert-over d b l g.1 r)
    live-in n p l l' (there {a = a} {l = i} {l' = i'} s) k g mk kn = ground (
      arith,
      live-in n a i i' s k.1 g.1 mk kn,
      Splice-rank (rank key) prev n a i i' s g.1,
      rank_key key p a g.0,
      small,
    )

  pub live-out :
      (prev c p : ℕ) (l l' : List ℕ)
      → Splice prev c p l' l
      → marked c ≡ true
      → live marked key l' ≡ live marked key l
  live-out prev c p l l' (here e) mk = ground (arith, mk)
  live-out prev c p l l' (there {a = a} {l = i'} {l' = i} s) mk =
      ground (arith, live-out prev c a i i' s mk)

  pub present :
      (c : ℕ) (l : List ℕ) → In c l → marked c ≡ false → contains (key c) (live marked key l) ≡ true
  unfolding contains
  present c [] i mk = elim i [ ]
  present c (a ∷ l) (inl e) mk = ground (arith, e, mk)
  present c (a ∷ l) (inr i) mk = ground (arith, present c l i mk)

  -- A node is marked.
  pub live-mark :
      (c p : ℕ) (l : List ℕ)
      → In c l
      → Rising (rank key) p l
      → marked c ≡ false
      → live (update marked c true) key l ≡ delete (key c) (live marked key l)
  unfolding delete
  live-mark c p [] i g mk = elim i [ ]
  live-mark c p (a ∷ l) (inl e) g mk = ground (
    arith,
    e,
    mk,
    live-unmarked c l (Rising-NotIn (rank key) a c l g.1 (omega (arith, ap (rank key) e))),
  )
    where
      live-unmarked :
          (c : ℕ) (l : List ℕ) → NotIn c l → live (update marked c true) key l ≡ live marked key l
      live-unmarked c [] n = refl
      live-unmarked c (a ∷ l) n = ground (arith, n.0, live-unmarked c l n.1)
  live-mark c p (a ∷ l) (inr i) g mk =
      let above : rank key a < rank key c = Rising-above (rank key) a c l g.1 i in
      ground (arith, live-mark c a l i g.1 mk, above, rank_key key p a g.0, rank_key key a c above)
