-- ===== src/Scheduler.antt =====
-- include/amino/ws_scheduler.h: the work-stealing scheduler, one call at a time. A task is a number, 0
-- is NULL, the end signal. A queue is a list with its left end first; that is what the deques of
-- include/amino/deque.h promise.
pub mod Queue
pub mod Conserve
pub mod Steal
pub mod Calls
pub mod Signal
mod Tests
use amino.Prelude.{
  ℕ, zero, suc, ◌+◌, ◌-◌, ◌%◌, ◌^◌, ltb, Bool, List, [], ◌∷◌, Option, none, some, ◌==◌,
  if◌then◌else◌, update,
}
use amino.Scheduler.Queue.{push_left, pop_right, pop_left, is_empty}

-- The queues from `thread_num` on are none: they stand for memory beyond the array.
pub record Scheduler : Type 0 where
  pub thread_num : ℕ
  pub queues : ℕ → List ℕ
  pub rand_ind : ℕ

-- What a call of `getTask` comes to: a task, the end signal NULL, a wait on the caller's own queue in
-- `takeRight`, or the failure of `assert(res != NULL)`.
pub data Outcome : Type 0 where
  task : ℕ → Outcome
  ended : Outcome
  blocked : Outcome
  failed : Outcome

-- The constructor.
pub new : ℕ → Scheduler
new n = record { thread_num = n; queues = λ _. []; rand_ind = 0 }

-- `queues[i]` with `q` in its place.
pub put : Scheduler → ℕ → List ℕ → Scheduler
put s i q = record s { queues = update s.queues i q }

-- `index % n` on ints of 32 bits, each named by its bits as a number below 2 ^ 32. A negative index has a remainder that is
-- negative or 0; the bits of a negative one are the number of no queue, but of memory beyond the array.
pub int_mod : ℕ → ℕ → ℕ
int_mod index n =
    let r = (2 ^ 32 - index) % n in
    if ltb index (2 ^ 31) then index % n else if r == 0 then 0 else 2 ^ 32 - r

-- `addTask(index, task)`
pub add_task_at : ℕ → ℕ → Scheduler → Scheduler
unfolding put int_mod
add_task_at index t s = let i = int_mod index s.thread_num in put s i (push_left t (s.queues i))

-- `addTask(task)`. `randInd++` wraps around, as on the machines; to C the overflow is undefined.
pub add_task : ℕ → Scheduler → Scheduler
unfolding add_task_at
add_task t s = add_task_at s.rand_ind t (record s { rand_ind = (s.rand_ind + 1) % 2 ^ 32 })

-- `shutdown`, from queue `i` on.
pub shutdown_loop : ℕ → ℕ → Scheduler → Scheduler
unfolding put
shutdown_loop zero i s = s
shutdown_loop (suc n) i s = shutdown_loop n (i + 1) (put s i (push_left 0 (s.queues i)))

pub shutdown : Scheduler → Scheduler
unfolding shutdown_loop
shutdown s = shutdown_loop s.thread_num 0 s

-- A task pointer that a caller gets.
abbrev pub as_outcome : ℕ → Outcome
as_outcome t = if t == 0 then ended else task t

-- `takeRight` of the caller's own queue.
pub take_right : ℕ → Scheduler → Outcome × Scheduler
unfolding put
take_right me s = elim (pop_right (s.queues me)) [
  | none ↦ (blocked, s)
  | some (q, t) ↦ (as_outcome t, put s me q)
]

-- `stealing`: `n` rounds from round `i` on. A NULL is put back and ends the search.
pub steal_loop : ℕ → ℕ → ℕ → Scheduler → Outcome × Scheduler
unfolding put take_right
steal_loop zero i me s = take_right me s
steal_loop (suc n) i me s =
    let victim = (i + me) % s.thread_num in
    let rest = steal_loop n (i + 1) me s in
    elim (pop_left (s.queues victim)) [
      | none ↦ rest
      | some (t, q) ↦
          if t == 0 then take_right me (put s victim (push_left t q)) else (task t, put s victim q)
    ]

pub stealing : ℕ → Scheduler → Outcome × Scheduler
unfolding steal_loop
stealing me s = steal_loop (s.thread_num - 1) 0 me s

-- The end signal was at the right end of `q`, before other entries: it goes to the left end.
rotate : ℕ → List ℕ → Scheduler → Outcome × Scheduler
unfolding put
rotate me q s = elim (pop_right (push_left 0 q)) [
  | none ↦ (ended, put s me (push_left 0 q))
  | some (r, t) ↦ (if t == 0 then failed else task t, put s me r)
]

-- `getTask`
pub get_task : ℕ → Scheduler → Outcome × Scheduler
unfolding put rotate stealing
get_task me s = elim (pop_right (s.queues me)) [
  | none ↦ stealing me s
  | some (q, t) ↦
      if t == 0
      then (if is_empty q then (ended, put s me q) else rotate me q s)
      else (task t, put s me q)
]
