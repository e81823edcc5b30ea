-- ===== src/Parallel/ForEach.antt =====
-- include/amino/foreach.h: `for_each`, and the task `CallStdForEach` of each slice.
use mathlib.Core.List.{Perm}
use amino.Prelude.{
  ℕ, zero, suc, ◌+◌, ◌-◌, ◌≡◌, refl, List, [], ◌∷◌, ◌++◌, arith, some, ltb, leb, if◌then◌else◌,
  times, times-append, ◌∙◌, sym,
}
use amino.Parallel.Slices.{Slice, foreach_slices, foreach_slices_lem, visits, Perm-visits}

-- `CallStdForEach::run`: the positions at which `func` is called, one after another.
unfoldable pub call_loop : ℕ → ℕ → List ℕ
call_loop zero i = []
call_loop (suc n) i = i ∷ call_loop n (i + 1)

unfoldable pub call_std_for_each : Slice → List ℕ
unfolding call_loop
call_std_for_each s = call_loop (s.last - s.first) s.first

-- The calls of all tasks, when the executor runs them in the given order.
unfoldable pub run_tasks : List Slice → List ℕ
run_tasks [] = []
run_tasks (s ∷ order) = call_std_for_each s ++ run_tasks order

call_loop_lem :
    (j n i : ℕ)
    → times j (call_loop n i) ≡ (if leb i j then (if ltb j (i + n) then 1 else 0) else 0)
unfolding call_loop
call_loop_lem j zero i = ground arith
call_loop_lem j (suc n) i = ground (arith, call_loop_lem j n (i + 1))

run_tasks_lem : (j : ℕ) (order : List Slice) → times j (run_tasks order) ≡ visits j order
unfolding run_tasks call_std_for_each
run_tasks_lem j [] = refl
run_tasks_lem j (s ∷ order) =
    times-append j (call_std_for_each s) (run_tasks order)
    ∙ ground (arith, call_loop_lem j (s.last - s.first) s.first, run_tasks_lem j order)

-- In whatever order the executor runs the tasks of a `for_each`, `func` is called exactly once at each
-- position of the range and at no other.
pub for_each_calls :
    (div len j : ℕ) (l order : List Slice)
    → foreach_slices div len ≡ some l
    → Perm l order
    → times j (run_tasks order) ≡ (if ltb j len then 1 else 0)
for_each_calls div len j l order e p =
    run_tasks_lem j order ∙ sym (Perm-visits j l order p) ∙ foreach_slices_lem j div len l e
