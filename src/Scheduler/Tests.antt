-- ===== src/Scheduler/Tests.antt =====
-- The scheduler with two threads.
use amino.Prelude.{ℕ, zero, suc, ◌+◌, ◌-◌, ◌^◌, ◌≡◌, ◌↔◌, refl, List, [], ◌∷◌, arith, times}
use amino.Scheduler.{Scheduler, new, blocked, get_task, put, int_mod}
use amino.Scheduler.Calls.{
  Call, add, stop, get, perform_all, adds, added, handed_out, get_task_conserves,
}
use amino.Scheduler.Conserve.{queued}
use amino.Scheduler.Steal.{AllEmpty, skipped, get_task_waits}

-- Task 7 goes to queue 0, task 8 to queue 1; worker 0 then runs both.
abbrev two_tasks : List Call
two_tasks = add 7 ∷ add 8 ∷ get 0 ∷ get 1 ∷ stop ∷ get 0 ∷ []

get_task_conserves_example :
    (let r = perform_all two_tasks (new 2) in handed_out 8 r.0 + queued 8 2 r.1.queues)
    ≡ added 8 two_tasks
unfolding adds
get_task_conserves_example =
    get_task_conserves 8 2 two_tasks (ground arith) (omega arith)
      (tt, (tt, (omega arith, (omega arith, (tt, (omega arith, tt)))))) (omega arith)

-- Queue 1 of two holds task 8.
abbrev other_queue : ℕ → List ℕ
other_queue zero = []
other_queue (suc zero) = 8 ∷ []
other_queue (suc (suc i)) = []

abbrev only_other : Scheduler
only_other = record { thread_num = 2; queues = other_queue; rand_ind = 2 }

only_other_running : (i : ℕ) → times 0 (only_other.queues i) ≡ 0
only_other_running zero = refl
only_other_running (suc zero) = refl
only_other_running (suc (suc i)) = refl

-- Whatever stands in the queue of worker 1, here 8 and 9, worker 0 waits.
get_task_waits_example :
    (((get_task 0 only_other).0 ≡ blocked) ↔ AllEmpty (only_other.thread_num - 1) 0 0 only_other)
    × ((get_task 0 (put only_other (skipped 0 only_other) (8 ∷ 9 ∷ []))).0
        ≡ (get_task 0 only_other).0)
get_task_waits_example =
    get_task_waits 0 only_other (8 ∷ 9 ∷ []) (omega arith) (omega arith) only_other_running

-- Worker 0 waits all the same.
worker_0_waits : (get_task 0 only_other).0 ≡ blocked
worker_0_waits =
    (get_task_waits 0 only_other [] (omega arith) (omega arith) only_other_running).0.1 (refl, refl)

-- After 2 ^ 31 calls the index is negative: with three threads the task goes to none of the queues.
lost_task : (r : ℕ) → r ≡ 2 ^ 31 → int_mod r 3 ≡ 2 ^ 32 - 2
unfolding int_mod
lost_task r e = ground (arith, e)
