-- ===== src/Executor.antt =====
-- include/amino/tp_exec.h: the thread pool over the work-stealing scheduler, one call or one turn of a worker's loop at
-- a time.
pub mod Halt
mod Tests
use amino.Prelude.{
  ℕ, ◌-◌, Bool, true, false, List, [], ◌∷◌, ◌==◌, if◌then◌else◌, update, Option, none, some,
}
use amino.Scheduler.{
  Scheduler, Outcome, task, ended, blocked, failed, new, add_task, shutdown, get_task,
}

-- Where a worker stands: it fetches, it runs a task, its thread has ended, or its `assert` failed.
pub data Worker : Type 0 where
  fetching : Worker
  running : ℕ → Worker
  exited : Worker
  aborted : Worker

pub record Pool : Type 0 where
  pub scheduler : Scheduler
  pub is_shutdown : Bool
  pub active_count : ℕ
  pub worker : ℕ → Worker

-- `init`
pub start : ℕ → Pool
start n = record {
  scheduler = new n;
  is_shutdown = false;
  active_count = n;
  worker = λ _. fetching;
}

-- `execute`; `none` is the logic_error.
pub execute : ℕ → Pool → Option Pool
execute t p = if p.is_shutdown then none else some (record p { scheduler = add_task t p.scheduler })

pub shut_down : Pool → Pool
shut_down p = record p { is_shutdown = true; scheduler = shutdown p.scheduler }

pub halt : Pool → Pool
halt p = record p { is_shutdown = true }

pub finished : Pool → Bool
finished p = p.active_count == 0

-- What worker `i` does with what it was given. When it is blocked it still fetches.
pub given : ℕ → Outcome × Scheduler → Pool → Pool
given i (task t, s) p = record p { scheduler = s; worker = update p.worker i (running t) }
given i (ended, s) p = record p {
  scheduler = s;
  worker = update p.worker i exited;
  active_count = p.active_count - 1;
}
given i (blocked, s) p = record p { scheduler = s }
given i (failed, s) p = record p { scheduler = s; worker = update p.worker i aborted }

-- The next turn of the loop of `run`, by worker `i`.
pub turn : ℕ → Pool → Pool
unfolding given
turn i p = elim (p.worker i) [
  | fetching ↦ given i (get_task i p.scheduler) p
  | running t ↦ record p { worker = update p.worker i fetching }
  | exited ↦ p
  | aborted ↦ p
]

-- What threads may do to a pool.
pub data PoolCall : Type 0 where
  submits : ℕ → PoolCall
  stops : PoolCall
  halts : PoolCall
  works : ℕ → PoolCall

pub act : PoolCall → Pool → Pool
unfolding execute shut_down halt turn
act (submits t) p = elim (execute t p) [ none ↦ p | some p' ↦ p' ]
act stops p = shut_down p
act halts p = halt p
act (works i) p = turn i p

pub act_all : List PoolCall → Pool → Pool
unfolding act
act_all [] p = p
act_all (c ∷ cs) p = act_all cs (act c p)
