-- ===== src/Scheduler/Calls.antt =====
-- include/amino/ws_scheduler.h under any sequence of calls: what the workers get is what was added.
use amino.Prelude.{
  ℕ, zero, suc, ◌+◌, ◌≡◌, ◌≢◌, ◌<◌, ◌≤◌, ◌%◌, ◌^◌, ap, refl, ◌∙◌, List, [], ◌∷◌, ◌++◌, arith, ◌==◌,
  if◌then◌else◌, All,
}
use amino.Scheduler.{
  Scheduler, Outcome, new, put, add_task_at, add_task, shutdown_loop, shutdown, get_task,
}
use amino.Scheduler.Queue.{push_left}
use amino.Scheduler.Conserve.{
  queued, handed, queued-new, add_task_at-queued, shutdown_loop-queued, get_task-Kept,
}

-- A call of the scheduler: `addTask` in its two forms, `shutdown` and `getTask`.
pub data Call : Type 0 where
  add_at : ℕ → ℕ → Call
  add : ℕ → Call
  stop : Call
  get : ℕ → Call

-- What a call returns, if it returns something, and the scheduler after it.
pub perform : Call → Scheduler → List Outcome × Scheduler
perform (add_at index t) s = ([], add_task_at index t s)
perform (add t) s = ([], add_task t s)
perform stop s = ([], shutdown s)
perform (get me) s = let r = get_task me s in (r.0 ∷ [], r.1)

-- Calls one after the other.
pub perform_all : List Call → Scheduler → List Outcome × Scheduler
unfolding perform
perform_all [] s = ([], s)
perform_all (c ∷ cs) s =
    let r = perform c s in let rest = perform_all cs r.1 in (r.0 ++ rest.0, rest.1)

-- Only the `n` workers call `getTask`, and nobody gives `addTask` a negative index.
abbrev pub IsCallOf : ℕ → Call → Type 0
IsCallOf n (add_at index t) = index < 2 ^ 31
IsCallOf n (add t) = Unit
IsCallOf n stop = Unit
IsCallOf n (get me) = me < n

-- How many calls are `addTask` without an index.
unfoldable pub adds : List Call → ℕ
adds [] = 0
adds (add_at index t ∷ cs) = adds cs
adds (add t ∷ cs) = suc (adds cs)
adds (stop ∷ cs) = adds cs
adds (get me ∷ cs) = adds cs

-- How often task `a` is added, and how often it is handed out.
pub added : ℕ → List Call → ℕ
added a [] = 0
added a (add_at index t ∷ cs) = (if t == a then 1 else 0) + added a cs
added a (add t ∷ cs) = (if t == a then 1 else 0) + added a cs
added a (stop ∷ cs) = added a cs
added a (get me ∷ cs) = added a cs

pub handed_out : ℕ → List Outcome → ℕ
handed_out a [] = 0
handed_out a (o ∷ os) = handed a o + handed_out a os

handed_out-append :
    (a : ℕ) (os ps : List Outcome) → handed_out a (os ++ ps) ≡ handed_out a os + handed_out a ps
unfolding handed_out
handed_out-append a [] ps = omega arith
handed_out-append a (o ∷ os) ps = ground (arith, handed_out-append a os ps)

shutdown_loop-thread_num :
    (m i : ℕ) (s : Scheduler) → (shutdown_loop m i s).thread_num ≡ s.thread_num
unfolding shutdown_loop put
shutdown_loop-thread_num zero i s = refl
shutdown_loop-thread_num (suc m) i s =
    shutdown_loop-thread_num m (i + 1) (put s i (push_left 0 (s.queues i)))

shutdown_loop-rand_ind : (m i : ℕ) (s : Scheduler) → (shutdown_loop m i s).rand_ind ≡ s.rand_ind
unfolding shutdown_loop put
shutdown_loop-rand_ind zero i s = refl
shutdown_loop-rand_ind (suc m) i s =
    shutdown_loop-rand_ind m (i + 1) (put s i (push_left 0 (s.queues i)))

added-cons : (a : ℕ) (c : Call) (cs : List Call) → added a (c ∷ cs) ≡ added a (c ∷ []) + added a cs
unfolding added
added-cons a (add_at index t) cs = omega arith
added-cons a (add t) cs = omega arith
added-cons a stop cs = omega arith
added-cons a (get me) cs = omega arith

module _ (a : ℕ) (real : a ≢ 0) (n : ℕ) (some_thread : 0 < n) where
  perform-queued :
      (c : Call) (cs : List Call) (s : Scheduler)
      → IsCallOf n c
      → s.thread_num ≡ n
      → s.rand_ind + adds (c ∷ cs) ≤ 2 ^ 31
      → (handed_out a (perform c s).0 + queued a n (perform c s).1.queues
          ≡ queued a n s.queues + added a (c ∷ []))
        × ((perform c s).1.thread_num ≡ n)
        × ((perform c s).1.rand_ind + adds cs ≤ 2 ^ 31)
  unfolding perform handed_out added adds shutdown add_task add_task_at put
  perform-queued (add_at index t) cs s w e h =
      (ground (arith, add_task_at-queued a real n index t s some_thread e w), e, h)
  perform-queued (add t) cs s w e h =
      let next = record s { rand_ind = (s.rand_ind + 1) % 2 ^ 32 } in
      (
        ground (arith, add_task_at-queued a real n s.rand_ind t next some_thread e (omega arith)),
        e,
        omega arith,
      )
  perform-queued stop cs s w e h = (
    ground (arith, shutdown_loop-queued a real n s.thread_num 0 s (omega arith)),
    shutdown_loop-thread_num s.thread_num 0 s ∙ e,
    omega (arith, shutdown_loop-rand_ind s.thread_num 0 s),
  )
  perform-queued (get me) cs s w e h =
      let kept = get_task-Kept a real n me s w e in
      (
        ground (arith, kept.0),
        ap (λ z. z.thread_num) kept.1 ∙ e,
        omega (arith, ap (λ z. z.rand_ind) kept.1),
      )

  perform_all-queued :
      (cs : List Call) (s : Scheduler)
      → All (IsCallOf n) cs
      → s.thread_num ≡ n
      → s.rand_ind + adds cs ≤ 2 ^ 31
      → handed_out a (perform_all cs s).0 + queued a n (perform_all cs s).1.queues
        ≡ queued a n s.queues + added a cs
  unfolding perform_all handed_out added
  perform_all-queued [] s w e h = omega arith
  perform_all-queued (c ∷ cs) s w e h =
      let first = perform-queued c cs s w.0 e h in
      let next = (perform c s).1 in
      ground (
        arith,
        first.0,
        added-cons a c cs,
        handed_out-append a (perform c s).0 (perform_all cs next).0,
        perform_all-queued cs next w.1 first.1 first.2,
      )

new_thread_num : (n : ℕ) → (new n).thread_num ≡ n
unfolding new
new_thread_num n = refl

new_rand_ind : (n : ℕ) → (new n).rand_ind ≡ 0
unfolding new
new_rand_ind n = refl

-- For any calls in any order with at most 2 ^ 31 of `addTask` without an index: of each task, what `getTask` handed
-- out and what still waits in a queue is together what was added. No task is lost, none comes twice. Task 0 is
-- NULL and no task, there is at least one thread, only the threads of the pool call `getTask`, and no index that
-- a caller gives is negative.
pub get_task_conserves :
    (a n : ℕ) (cs : List Call)
    → a ≢ 0
    → 0 < n
    → All (IsCallOf n) cs
    → adds cs ≤ 2 ^ 31
    → (let r = perform_all cs (new n) in handed_out a r.0 + queued a n r.1.queues) ≡ added a cs
get_task_conserves a n cs real some_thread w few = ground (
  arith,
  perform_all-queued a real n some_thread cs (new n) w (new_thread_num n)
      (omega (arith, new_rand_ind n)),
  queued-new a n n,
)
