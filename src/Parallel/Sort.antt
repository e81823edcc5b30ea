-- ===== src/Parallel/Sort.antt =====
-- include/amino/parallel_sort.h: `parallel_sort`. The tasks of one phase work on disjoint parts of the
-- array, here from left to right. `steps` is written without its first entry, which is always 0.
pub mod Runs
pub mod Sorted
mod Tests
use amino.Prelude.{
  ℕ, zero, suc, ◌+◌, ◌-◌, ◌*◌, ◌/◌, Bool, List, [], ◌∷◌, ◌++◌, length, Option, none, some, ltb,
  ◌==◌, if◌then◌else◌,
}

unfoldable pub take : ℕ → List ℕ → List ℕ
take zero xs = []
take (suc n) [] = []
take (suc n) (x ∷ xs) = x ∷ take n xs

unfoldable pub drop : ℕ → List ℕ → List ℕ
drop zero xs = xs
drop (suc n) [] = []
drop (suc n) (x ∷ xs) = drop n xs

-- The number of parts and their size; `none` is a division by zero.
unfoldable pub part : ℕ → ℕ → Option (ℕ × ℕ)
part threads len =
    if threads == 0
    then none
    else if ltb (len / (64 * threads)) 32
    then (if len == 0
        then none
        else if ltb len 32
        then some (len / len, len)
        else some (len / 32, 32))
    else some (64 * threads, len / (64 * threads))

-- The loop that fills `steps`.
unfoldable pub push_steps : ℕ → ℕ → ℕ → List ℕ
push_steps zero pos step = []
push_steps (suc n) pos step = pos ∷ push_steps n (pos + step) step

-- The first part is longer by what is left over.
unfoldable pub steps_of : ℕ → ℕ × ℕ → List ℕ
unfolding push_steps
steps_of len (div, step) = push_steps div (step + (len - step * div)) step

-- Every second entry goes, but the last stays.
unfoldable pub remove_middles : List ℕ → List ℕ
remove_middles [] = []
remove_middles (m ∷ []) = m ∷ []
remove_middles (m ∷ e ∷ steps) = e ∷ remove_middles steps

module _ (sort : List ℕ → List ℕ) where
  -- The sort tasks on `xs`, the array from position `a` on.
  unfoldable pub sort_parts : ℕ → List ℕ → List ℕ → List ℕ
  unfolding take drop
  sort_parts a [] xs = xs
  sort_parts a (b ∷ steps) xs = sort (take (b - a) xs) ++ sort_parts b steps (drop (b - a) xs)

module _ (merge : List ℕ → List ℕ → List ℕ) where
  -- The merge tasks of one round.
  unfoldable pub merge_round : ℕ → List ℕ → List ℕ → List ℕ
  unfolding take drop
  merge_round a [] xs = xs
  merge_round a (m ∷ []) xs = xs
  merge_round a (m ∷ e ∷ steps) xs =
      let right = drop (m - a) xs in
      merge (take (m - a) xs) (take (e - m) right) ++ merge_round e steps (drop (e - m) right)

  -- `while(steps.size()>2)`; `none` is a loop that has not ended within the fuel.
  unfoldable pub merge_loop : ℕ → List ℕ → List ℕ → Option (List ℕ)
  unfolding merge_round remove_middles
  merge_loop zero steps xs = none
  merge_loop (suc n) steps xs =
      let rest = merge_loop n (remove_middles steps) (merge_round 0 steps xs) in
      if ltb 1 (length steps) then rest else some xs

pub parallel_sort : (List ℕ → List ℕ) → (List ℕ → List ℕ → List ℕ) → ℕ → List ℕ → Option (List ℕ)
unfolding part steps_of sort_parts merge_loop
parallel_sort sort merge threads xs = elim (part threads (length xs)) [
  | none ↦ none
  | some p ↦
      let steps = steps_of (length xs) p in
      merge_loop merge (length steps + 1) steps (sort_parts sort 0 steps xs)
]
