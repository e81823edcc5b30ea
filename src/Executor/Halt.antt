-- ===== src/Executor/Halt.antt =====
-- include/amino/tp_exec.h: what `halt` leaves undone.
use amino.Prelude.{
  ℕ, ◌≡◌, ◌≢◌, ◌<◌, refl, false, List, [], ◌∷◌, arith, All, Bool-cases, inl, inr, update,
}
use amino.Scheduler.{Scheduler, Outcome, task, ended, blocked, failed, get_task}
use amino.Scheduler.Signal.{HasNoNull, IsBusy, get_task-IsBusy, add_task-HasNoNull, new-HasNoNull}
use amino.Executor.{
  Worker, fetching, running, exited, aborted, Pool, start, execute, halt, finished, given, turn,
  PoolCall, submits, stops, halts, works, act, act_all,
}

-- A call that is not `shutdown`; a submitted task is not NULL.
abbrev pub NoShutdown : PoolCall → Type 0
NoShutdown (submits t) = t ≢ 0
NoShutdown stops = ⊥
NoShutdown halts = Unit
NoShutdown (works i) = Unit

abbrev IsOpen : ℕ → Pool → Type 0
IsOpen n p = HasNoNull p.scheduler × (p.active_count ≡ n)

given-IsOpen :
    (n i : ℕ) (r : Outcome × Scheduler) (p : Pool) → IsBusy r → IsOpen n p → IsOpen n (given i r p)
unfolding given
given-IsOpen n i (task t, s) p b h = (b.1, h.1)
given-IsOpen n i (ended, s) p b h = absurd (b.0 refl)
given-IsOpen n i (blocked, s) p b h = (b.1, h.1)
given-IsOpen n i (failed, s) p b h = (b.1, h.1)

turn-IsOpen : (n i : ℕ) (p : Pool) → IsOpen n p → IsOpen n (turn i p)
unfolding turn
turn-IsOpen n i p h = at_worker (p.worker i)
  where
    at_worker :
        (w : Worker)
        → IsOpen n (elim w [
          | fetching ↦ given i (get_task i p.scheduler) p
          | running t ↦ record p { worker = update p.worker i fetching }
          | exited ↦ p
          | aborted ↦ p
        ])
    at_worker fetching =
        given-IsOpen n i (get_task i p.scheduler) p (get_task-IsBusy i p.scheduler h.0) h
    at_worker (running t) = h
    at_worker exited = h
    at_worker aborted = h

act-IsOpen : (n : ℕ) (c : PoolCall) (p : Pool) → NoShutdown c → IsOpen n p → IsOpen n (act c p)
unfolding act execute halt
act-IsOpen n (submits t) p w h = elim (Bool-cases p.is_shutdown) [
  | inl e ↦ rw e h
  | inr e ↦ rw e (add_task-HasNoNull t p.scheduler w h.0, h.1)
]
act-IsOpen n stops p w h = elim w [ ]
act-IsOpen n halts p w h = h
act-IsOpen n (works i) p w h = turn-IsOpen n i p h

act_all-IsOpen :
    (n : ℕ) (cs : List PoolCall) (p : Pool)
    → All NoShutdown cs
    → IsOpen n p
    → IsOpen n (act_all cs p)
unfolding act_all
act_all-IsOpen n [] p w h = h
act_all-IsOpen n (c ∷ cs) p w h = act_all-IsOpen n cs (act c p) w.1 (act-IsOpen n c p w.0 h)

start-IsOpen : (n : ℕ) → IsOpen n (start n)
unfolding start
start-IsOpen n = (new-HasNoNull n, refl)

-- `halt` does not end the pool: after any calls among which no `shutdown` is, `halt` included, and with no NULL submitted as a task, a pool of at least one
-- thread is not finished, whatever turns its workers take, and its active count is what it was at the start.
pub halt_never_finishes :
    (n : ℕ) (cs : List PoolCall)
    → 0 < n
    → All NoShutdown cs
    → (finished (act_all cs (start n)) ≡ false) × ((act_all cs (start n)).active_count ≡ n)
unfolding finished
halt_never_finishes n cs some_thread w =
    let h : IsOpen n (act_all cs (start n)) = act_all-IsOpen n cs (start n) w (start-IsOpen n) in
    (ground (arith, h.1), h.1)
