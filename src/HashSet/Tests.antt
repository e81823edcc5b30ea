-- ===== src/HashSet/Tests.antt =====
-- With 8 buckets the key 13 is in bucket 5, whose parent is bucket 1. A set of numbers that are their own hash: the number
-- of buckets doubles when there are as many elements as buckets, for the load factor 0.75 too.
use amino.Prelude.{
  ℕ, ◌-◌, ◌%◌, ◌^◌, ◌≤◌, ◌<◌, ◌≡◌, ◌↔◌, refl, arith, Bool, true, false, List, [], ◌∷◌, some, ltb,
  length, contains, ℕ_discrete,
}
use amino.HashSet.Bits.{bit}
use amino.HashSet.Word.{binary_reverse, dummy_key, regular_key, get_parent}
use amino.HashSet.Reverse.{binary_reverse_twice}
use amino.HashSet.Answers.{Holds}
use amino.HashSet.Start.{init_lem}
use amino.HashSet.Valid.{Valid, Keeps}
use amino.HashSet.Initialize.{initialize_bucket_lem}
use amino.HashSet.Table.{Set, init, cell, dummy, initialize_bucket, ◌>>=◌, empty}
use amino.HashSet.Safety.{
  Call, inserts, removes, searches, replies, elements_after, run_calls, set_replies,
}
use amino.HashSet.Order.{floor, split_order}

reversed : (binary_reverse 13 ≡ 0xb0000000) × (regular_key 13 ≡ 0xb0000001) × (get_parent 13 ≡ 5)
unfolding binary_reverse regular_key get_parent
reversed = (refl, refl, refl)

binary_reverse_twice_example :
    (binary_reverse 13 < 2 ^ 32)
    × ((i : ℕ) → i < 32 → bit i (binary_reverse 13) ≡ bit (31 - i) 13)
    × (binary_reverse (binary_reverse 13) ≡ 13)
binary_reverse_twice_example = binary_reverse_twice 13 (omega arith)

split_order_example :
    (dummy_key (13 % 2 ^ 3) ≡ floor (32 - 3) (regular_key 13))
    × (dummy_key (13 % 2 ^ 3) < regular_key 13)
    × ((dummy_key 7 < regular_key 13) ↔ (dummy_key 7 ≤ dummy_key (13 % 2 ^ 3)))
split_order_example = split_order 3 13 7 (omega arith) (omega arith) (omega arith)

abbrev some_calls : List Call
some_calls = inserts 13 ∷ inserts 6 ∷ inserts 13 ∷ removes 6 ∷ searches 6 ∷ searches 13 ∷ []

abbrev over_factor : ℕ → Bool
over_factor quotient = ltb 0 quotient

set_sizes :
    ((init 64 over_factor >>= λ s.
    run_calls (λ e. e) (inserts 13 ∷ []) s >>= λ r. some ((r.1).size))
      ≡ some 2)
    × ((init 64 over_factor >>= λ s. run_calls (λ e. e) some_calls s >>= λ r. some ((r.1).size))
        ≡ some 4)
unfolding init run_calls ℕ_discrete get_parent regular_key
set_sizes = (refl, refl)

set_answers : replies some_calls [] ≡ true ∷ true ∷ false ∷ true ∷ false ∷ true ∷ []
unfolding replies contains
set_answers = refl

set_replies_example :
    (s u : Set) × (init 64 over_factor ≡ some s)
    × (run_calls (λ e. e) some_calls s ≡ some (replies some_calls [], u))
    × (u.count ≡ length (elements_after some_calls []))
    × ((empty u ≡ true) ↔ (elements_after some_calls [] ≡ []))
set_replies_example =
    set_replies (λ e. e) 64 over_factor some_calls (omega arith)
      (omega arith, (omega arith, (omega arith, (omega arith, (omega arith, (omega arith, tt))))))

abbrev started :
    (g : ℕ) × (s : Set) × (init 64 over_factor ≡ some s) × Valid 1 g s × Holds (λ e. e) s []
started = init_lem (λ e. e) 64 over_factor (omega arith)

initialize_bucket_lem_example :
    (u : Set) × (initialize_bucket 2 1 (started.1) ≡ some u)
    × Keeps 1 (started.0) (started.1) u
    × (cell 1 u ≡ some (dummy 1))
initialize_bucket_lem_example =
    initialize_bucket_lem 2 1 (started.1) (started.3) (omega arith) (omega arith) (omega arith)
