-- ===== src/Blocking/Tests.antt =====
-- Thread 0 sleeps in `takeRight` when thread 1 pushes.
use amino.Prelude.{ℕ, ◌≡◌, ◌⊎◌, refl, true, List, [], ◌∷◌, arith, some}
use amino.Scheduler.Queue.{pop_right, push_left}
use amino.Blocking.{
  left, right, push_end, pop_end, push_notify, Event, call_push, push_locks, push_adds, call_take,
  take_misses, take_locks, take_sleeps, System, Step, moves, woken, init, Run, start, later,
}
use amino.Blocking.Invariant.{is_asleep}
use amino.Blocking.Progress.{CanGo, no_lost_wakeup, no_deadlock}

-- An execution: its events, where it ends, and that it is one.
record Execution : Type 0 where
  events : List Event
  last : System
  run : Run events last

abbrev then_ : (x : Execution) {e : Event} {s : System} → Step (x.last) e s → Execution
then_ x {e} {s} st = record { events = e ∷ x.events; last = s; run = later (x.run) st }

abbrev called : Execution
unfolding init woken
called = then_ (record { events = []; last = init; run = start }) (moves 0 (call_take right))

abbrev missed : Execution
unfolding init woken pop_end pop_right
missed = then_ called (moves 0 (take_misses refl))

abbrev locked : Execution
unfolding init woken pop_end pop_right
locked = then_ missed (moves 0 (take_locks refl))

abbrev asleep : Execution
unfolding init woken pop_end pop_right
asleep = then_ locked (moves 0 (take_sleeps refl))

abbrev pushing : Execution
unfolding init woken pop_end pop_right
pushing = then_ (then_ asleep (moves 1 (call_push left 7))) (moves 1 (push_locks refl))

abbrev pushed_7 : Execution
unfolding init woken pop_end pop_right push_end push_left
pushed_7 = then_ pushing (moves 1 push_adds)

no_lost_wakeup_example :
    (u : ℕ) × (pushed_7.last.pcs u ≡ push_notify) × (pushed_7.last.shared.holder ≡ some u)
unfolding init woken pop_end pop_right push_end push_left
no_lost_wakeup_example =
    no_lost_wakeup (pushed_7.events) (pushed_7.last) 0 right (pushed_7.run) refl
      (λ z. ground (arith, z))

no_deadlock_example :
    CanGo (pushed_7.last)
    ⊎ ((is_asleep (pushed_7.last.pcs 0) ≡ true) × (pushed_7.last.shared.items ≡ []))
unfolding init woken pop_end pop_right push_end push_left
no_deadlock_example =
    no_deadlock (pushed_7.events) (pushed_7.last) 0 (pushed_7.run) (λ z. ground (arith, z))
