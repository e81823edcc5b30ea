-- ===== src/HashSet/Growth.antt =====
-- include/amino/lockfree_set.h: the invariant with another list of nodes, and when the buckets are doubled.
use native.Mathlib.Nat.{pow-succ'}
use amino.Prelude.{
  ℕ, suc, ◌+◌, ◌*◌, ◌/◌, ◌^◌, ◌≤◌, ◌<◌, ◌≡◌, refl, arith, true, List, none, Bool-cases, ltb, inl,
  inr,
}
use amino.HashSet.Nodes.{SetNode}
use amino.HashSet.Sorted.{Ascending, has}
use amino.HashSet.Table.{Set, dummy, grow}
use amino.HashSet.Valid.{Valid, pow_le, pow_nine}
use amino.HashSet.Initialize.{small}

-- The invariant with another list, which has the dummy nodes still.
pub Valid-list :
    {j g : ℕ} {s : Set} (l : List SetNode) (n : ℕ)
    → Valid j g s
    → Ascending none l
    → ((b : ℕ) → b < 2 ^ 31 → has (dummy b) s.o_list ≡ true → has (dummy b) l ≡ true)
    → Valid j g (record s { o_list = l; count = n })
Valid-list l n v asc kept = record {
  size_is = v.size_is;
  segment_is = v.segment_is;
  wide = v.wide;
  limit = v.limit;
  ascending = asc;
  first = v.first;
  points =
      λ b x h. let (lt, e, i) = v.points b x h in (lt, e, kept b (omega (arith, small v lt)) i);
}

below : (j g : ℕ) → 2 ^ j < 512 * 2 ^ g → suc j ≤ g + 9
below j g h = elim (Bool-cases (ltb j (g + 9))) [
  | inl less ↦ ground arith
  | inr more ↦ let le : g + 9 ≤ j = ground arith in absurd (omega (arith, pow_nine g, pow_le le))
]

-- `grow` keeps the list and the count.
pub grow_lem :
    {j g : ℕ} (s : Set)
    → Valid j g s
    → (k : ℕ) × Valid k g (grow s) × ((grow s).o_list ≡ s.o_list) × ((grow s).count ≡ s.count)
unfolding grow
grow_lem {j} {g} s v = elim (Bool-cases (ltb s.size (512 * s.segment_size))) [
  | inl less ↦ elim (Bool-cases (s.over (s.count / s.size))) [
    | inl over ↦
        let lt : 2 ^ j < 512 * 2 ^ g = ground (arith, less, v.size_is, v.segment_is) in
        let grown : Valid (suc j) g (record s { size = 2 * s.size }) = record {
          size_is = omega (arith, v.size_is, pow-succ' 2 j);
          segment_is = v.segment_is;
          wide = below j g lt;
          limit = v.limit;
          ascending = v.ascending;
          first = v.first;
          points =
              λ b x h. let (lt, e, i) = v.points b x h in (omega (arith, lt, pow-succ' 2 j), e, i);
        } in
        (suc j, rw (less, over) grown, rw (less, over) refl, rw (less, over) refl)
    | inr under ↦ (j, rw (less, under) v, rw (less, under) refl, rw (less, under) refl)
  ]
  | inr full ↦ (j, rw full v, rw full refl, rw full refl)
]
