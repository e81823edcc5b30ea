-- ===== src/Future/Tests.antt =====
-- Thread 0 waits in `get()`, thread 2 in the `get` with a timeout, while thread 1 runs the task, which
-- returns 7.
use amino.Prelude.{ℕ, ◌≡◌, ◌⊎◌, refl, true, false, List, [], ◌∷◌, arith, some}
use amino.Future.{
  idle, run_notify, timed_asleep, Event, silent, call_run, run_stores, run_locks, run_sets,
  run_notifies, run_unlocks, call_get, get_finds, get_misses, get_locks, get_waits, get_relocks,
  get_releases, get_returns, call_timed, timed_misses, timed_locks, timed_waits, System, Step,
  moves, init, Run, start, later,
}
use amino.Future.Invariant.{is_asleep, last_stored}
use amino.Future.Result.{get_returns_stored, get_not_lost}
use amino.Future.Progress.{CanGo, future_no_deadlock}

-- An execution: its events, where it ends, and that it is one.
record Execution : Type 0 where
  events : List Event
  last : System
  run : Run 0 events last

abbrev then_ : (x : Execution) {e : Event} {s : System} → Step (x.last) e s → Execution
then_ x {e} {s} st = record { events = e ∷ x.events; last = s; run = later (x.run) st }

abbrev started : Execution
started = record { events = []; last = init 0; run = start }

abbrev missed : Execution
missed = then_ (then_ started (moves 0 call_get)) (moves 0 (get_misses refl refl))

abbrev waiting : Execution
waiting = then_ (then_ missed (moves 0 (get_locks refl))) (moves 0 (get_waits refl))

abbrev timed_missed : Execution
timed_missed = then_ (then_ waiting (moves 2 call_timed)) (moves 2 (timed_misses refl))

abbrev stored_7 : Execution
stored_7 = then_ (then_ timed_missed (moves 1 (call_run 7))) (moves 1 run_stores)

abbrev set_7 : Execution
set_7 = then_ (then_ stored_7 (moves 1 (run_locks refl))) (moves 1 run_sets)

abbrev notified_7 : Execution
notified_7 = then_ (then_ set_7 (moves 1 run_notifies)) (moves 1 run_unlocks)

abbrev released : Execution
released = then_ (then_ notified_7 (moves 0 (get_relocks refl))) (moves 0 get_releases)

abbrev got_7 : Execution
got_7 = then_ (then_ released (moves 0 (get_finds refl refl))) (moves 0 get_returns)

get_returns_stored_example : last_stored (released.events) ≡ some 7
get_returns_stored_example =
    get_returns_stored 7 0 (silent ∷ released.events) (got_7.last) (got_7.run)

get_not_lost_example :
    (u : ℕ) × (set_7.last.pcs u ≡ run_notify) × (set_7.last.shared.holder ≡ some u)
get_not_lost_example = get_not_lost 0 (set_7.events) (set_7.last) 0 (set_7.run) refl refl

future_no_deadlock_example :
    CanGo (waiting.last)
    ⊎ ((is_asleep (waiting.last.pcs 0) ≡ true) × (waiting.last.shared.is_avail ≡ false))
future_no_deadlock_example =
    future_no_deadlock 0 (waiting.events) (waiting.last) 0 (waiting.run) (λ z. ground (arith, z))

-- The `get` with a timeout looks at `isAvail` only before it takes the mutex. Thread 2 falls asleep after the
-- result is there and everyone was notified; only the timeout ends its sleep.
abbrev sleeps_on : Execution
sleeps_on = then_ (then_ got_7 (moves 2 (timed_locks refl))) (moves 2 timed_waits)

timed_get_sleeps_on :
    (sleeps_on.last.pcs 2 ≡ timed_asleep)
    × (sleeps_on.last.shared.is_avail ≡ true)
    × (sleeps_on.last.pcs 1 ≡ idle)
timed_get_sleeps_on = (refl, refl, refl)
