-- ===== src/Parallel/Tests.antt =====
-- The parallel algorithms on small ranges.
use mathlib.Core.List.Perm
use native.Mathlib.Nat.{add_assoc, mul_assoc}
use amino.Prelude.{
  ℕ, suc, ◌+◌, ◌*◌, ◌≡◌, refl, List, [], ◌∷◌, arith, none, ltb, ◌==◌, if◌then◌else◌, times,
}
use amino.Parallel.Slices.{Slice, foreach_slices, even_slices, cut, heads}
use amino.Parallel.ForEach.{run_tasks, for_each_calls}
use amino.Parallel.Transform.{run_unary, transform_slices, transform_unary}
use amino.Parallel.Accumulate.{
  accumulate, accumulate_func, fold_range, accumulate_sum, accumulate_func_lem,
}

abbrev slice : ℕ → ℕ → Slice
slice a b = record { first = a; last = b }

-- Seven elements in three slices, the last of which is longer.
abbrev thirds : List Slice
thirds = slice 0 2 ∷ slice 2 4 ∷ slice 4 7 ∷ []

abbrev shuffled : List Slice
shuffled = slice 2 4 ∷ slice 0 2 ∷ slice 4 7 ∷ []

for_each_calls_example : times 5 (run_tasks shuffled) ≡ 1
unfolding foreach_slices cut heads
for_each_calls_example =
    for_each_calls 3 7 5 thirds shuffled refl (Perm.swap (slice 2 4) (slice 0 2) (slice 4 7 ∷ []))

abbrev ninths : List Slice
ninths = slice 0 3 ∷ slice 3 6 ∷ slice 6 10 ∷ []

transform_unary_example : run_unary suc (λ i. i * 10) 100 ninths (λ _. 0) 104 ≡ 41
unfolding transform_slices even_slices cut heads
transform_unary_example =
    transform_unary suc (λ i. i * 10) (λ _. 0) 100 3 10 104 ninths ninths refl (Perm.refl ninths)

accumulate_sum_example :
    accumulate ◌+◌ (λ i. i) 3 10 ≡ (if 3 == 0 then none else fold_range ◌+◌ (λ i. i) 10)
accumulate_sum_example = accumulate_sum ◌+◌ (λ i. i) 3 10 add_assoc

accumulate_func_lem_example :
    accumulate_func ◌+◌ ◌*◌ suc 3 4
    ≡ (if ltb 4 (3 * 3) then fold_range ◌+◌ suc 4 else fold_range ◌*◌ suc 4)
accumulate_func_lem_example = accumulate_func_lem ◌+◌ ◌*◌ suc 3 4 mul_assoc (omega arith)
