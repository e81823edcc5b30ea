-- ===== src/HashSet/Buckets.antt =====
-- include/amino/lockfree_set.h: what `get_bucket` and `set_bucket` do to the cells.
use native.Mathlib.Nat.{div-add-mod', mod-eq_of_lt}
use amino.Prelude.{
  ℕ, ◌*◌, ◌/◌, ◌%◌, ◌<◌, ◌≡◌, refl, ap, arith, ◌∙◌, Option, none, some, Option-cases, lt→ltb,
  update, update-elim, inl, inr,
}
use amino.HashSet.Nodes.{SetNode}
use amino.HashSet.Table.{
  Set, default_array_size, segment_or_new, fill, set_bucket, cell, get_bucket,
}

-- The bucket lies in the array.
abbrev pub Fits : ℕ → Set → Type 0
Fits b s = b / s.segment_size < default_array_size

abbrev pub with_array : Set → (ℕ → Option (ℕ → Option SetNode)) → Set
with_array s cells = record s { main_array = cells }

-- The array `f` in place of that of `s` makes the cells `new`.
abbrev pub Recells :
    (s : Set) (new : ℕ → Option SetNode) (f : ℕ → Option (ℕ → Option SetNode)) → Type 0
Recells s new f = (c : ℕ) → cell c (with_array s f) ≡ new c

same_place : (c b n : ℕ) → c / n ≡ b / n → c % n ≡ b % n → c ≡ b
same_place c b n q r = omega (arith, ap (λ x. x * n) q, r, div-add-mod' c n, div-add-mod' b n)

-- A write to the cell of one bucket is a write to one bucket.
cell-update :
    (s : Set) (b c : ℕ) (v : Option SetNode)
    → let n = s.segment_size in
      let row = update (segment_or_new (s.main_array (b / n))) (b % n) v in
      cell c (with_array s (update s.main_array (b / n) (some row))) ≡ update (λ x. cell x s) b v c
cell-update s b c v =
    let n = s.segment_size in
    let row = update (segment_or_new (s.main_array (b / n))) (b % n) v in
    update-elim (λ z. cell c (with_array s (update s.main_array (b / n) (some row))) ≡ z)
      (λ x. cell x s) b v c
      (λ e.
        update-elim (λ z. segment_or_new z (c % n) ≡ v) s.main_array (b / n) (some row) (c / n)
          (λ _.
            update-elim (λ z. z ≡ v) (segment_or_new (s.main_array (b / n))) (b % n) v (c % n)
              (λ _. refl) (λ ne. absurd (ne (ap (λ x. x % n) e))))
          (λ ne. absurd (ne (ap (λ x. x / n) e))))
      (λ ne.
        update-elim (λ z. segment_or_new z (c % n) ≡ cell c s) s.main_array (b / n) (some row)
          (c / n)
          (λ q.
            update-elim (λ z. z ≡ cell c s) (segment_or_new (s.main_array (b / n))) (b % n) v
              (c % n) (λ r. absurd (ne (same_place b c n q r)))
              (λ _. ap (λ z. segment_or_new (s.main_array z) (c % n)) q))
          (λ _. refl))

pub set_bucket_lem :
    (b : ℕ) (head : Option SetNode) (s : Set)
    → Fits b s
    → (f : ℕ → Option (ℕ → Option SetNode)) × (set_bucket b head s ≡ some (with_array s f))
      × Recells s (update (λ c. cell c s) b (fill head (cell b s))) f
unfolding set_bucket
set_bucket_lem b head s h =
    let n = s.segment_size in
    let old = segment_or_new (s.main_array (b / n)) in
    let row = update old (b % n) (fill head (old (b % n))) in
    (
      update s.main_array (b / n) (some row),
      ground (arith, h),
      λ c. cell-update s b c (fill head (cell b s)),
    )

rewrite_cell : (s : Set) (b c : ℕ) → update (λ x. cell x s) b (cell b s) c ≡ cell c s
rewrite_cell s b c =
    update-elim (λ z. z ≡ cell c s) (λ x. cell x s) b (cell b s) c (λ e. ap (λ x. cell x s) e)
      (λ _. refl)

pub get_bucket_lem :
    (b : ℕ) (s : Set)
    → Fits b s
    → b < s.size
    → (f : ℕ → Option (ℕ → Option SetNode)) × (get_bucket b s ≡ some (cell b s, with_array s f))
      × Recells s (λ c. cell c s) f
unfolding get_bucket
get_bucket_lem b s h lt =
    let (f, run, cells) = set_bucket_lem b none s h in
    let whole = mod-eq_of_lt lt in
    let inside = lt→ltb (b / s.segment_size) default_array_size h in
    elim (Option-cases (s.main_array (b / s.segment_size))) [
      | inl new ↦
          let t = with_array s f in
          let go : get_bucket b s ≡ some (cell b t, t) = rw (whole, inside, new, whole, run) refl in
          (
            f,
            go ∙ ap (λ z. some (z, t)) (cells b ∙ rewrite_cell s b b),
            λ c. cells c ∙ rewrite_cell s b c,
          )
      | inr (row, old) ↦
          let pick : Option (ℕ → Option SetNode) → Option (Option SetNode × Set) =
            λ z. some (segment_or_new z (b % s.segment_size), s) in
          let go : get_bucket b s ≡ some (cell b s, s) = rw (whole, inside, old) (ap pick old) in
          (s.main_array, go, λ c. refl)
    ]
