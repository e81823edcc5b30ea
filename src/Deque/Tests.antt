-- ===== src/Deque/Tests.antt =====
-- Thread 0 pushes 7 at the right end, thread 1 pushes 8 at the left end and stops, and thread 0 pops at the right end:
-- it sets the link that thread 1 left open.
use amino.Prelude.{
  ℕ, ◌+◌, ◌≡◌, ◌↔◌, true, some, length, refl, List, [], ◌∷◌, arith, ℕ_discrete, IsNodup,
}
use amino.Blocking.{Event, left, right}
use amino.Blocking.Order.{Replay}
use amino.Deque.Views.{rev}
use amino.Deque.Shape.{stable_ne}
use amino.Deque.Moves.{pushes, pops, stabilizes, PushMove, PopMove, StabilizeMove}
use amino.Deque.System.{System, Step, pick, init, Run, start, later}
use amino.Deque.Invariant.{contents}
use amino.Deque.Whole.{empty, size, peek, destroy, first?, deque_whole}
use amino.Deque.Safety.{Holds, deque-linearizable}

-- An execution: its events, where it ends, and that it is one.
record Trace : Type 0 where
  events : List Event
  last : System
  run : Run events last

abbrev then_do : (x : Trace) {e : Event} {s : System} → Step (x.last) e s → Trace
then_do x {e} {s} st = record { events = e ∷ x.events; last = s; run = later (x.run) st }

abbrev one_7 : Trace
unfolding ℕ_discrete
one_7 =
    then_do
      (then_do
        (then_do (record { events = []; last = init; run = start })
          (pick 0 (pushes (PushMove.alloc right 7 1 (omega arith) refl))))
        (pick 0 (pushes (PushMove.load_empty refl))))
      (pick 0 (pushes (PushMove.first_win refl)))

abbrev before_8 : Trace
unfolding ℕ_discrete
before_8 =
    then_do
      (then_do (then_do (one_7) (pick 1 (pushes (PushMove.alloc left 8 2 (omega arith) refl))))
        (pick 1 (pushes (PushMove.load_stable (omega arith) refl))))
      (pick 1 (pushes (PushMove.store_link)))

abbrev added_8 : Trace
unfolding ℕ_discrete
added_8 =
    then_do
      (then_do (then_do (before_8) (pick 1 (pushes (PushMove.cas_win refl))))
        (pick 0 (pops (PopMove.call right))))
      (pick 0 (pops (PopMove.load_unstable left (omega arith) (omega arith) refl)))

abbrev rechecked : Trace
unfolding ℕ_discrete
rechecked =
    then_do
      (then_do
        (then_do
          (then_do
            (then_do (then_do (added_8) (pick 0 (stabilizes (StabilizeMove.left_stays refl))))
              (pick 0 (stabilizes (StabilizeMove.right_stays refl))))
            (pick 0 (stabilizes (StabilizeMove.check_same refl))))
          (pick 0 (stabilizes (StabilizeMove.load_prev))))
        (pick 0 (stabilizes (StabilizeMove.end_stays refl))))
      (pick 0 (stabilizes (StabilizeMove.recheck_same refl)))

abbrev stabilized : Trace
unfolding ℕ_discrete
stabilized =
    then_do
      (then_do
        (then_do
          (then_do (rechecked) (pick 0 (stabilizes (StabilizeMove.next_wrong (omega arith)))))
          (pick 0 (stabilizes (StabilizeMove.again_same refl))))
        (pick 0 (stabilizes (StabilizeMove.fix_win refl))))
      (pick 0 (stabilizes (StabilizeMove.cas_win refl)))

abbrev seen : Trace
unfolding ℕ_discrete
seen =
    then_do
      (then_do
        (then_do
          (then_do
            (then_do (stabilized)
              (pick 0 (pops (PopMove.load_stable (omega arith) (omega arith) refl))))
            (pick 0 (pops (PopMove.left_stays refl))))
          (pick 0 (pops (PopMove.right_stays refl))))
        (pick 0 (pops (PopMove.check_same refl))))
      (pick 0 (pops (PopMove.load_prev)))

abbrev popped_7 : Trace
unfolding ℕ_discrete
popped_7 =
    then_do
      (then_do (then_do (seen) (pick 0 (pops (PopMove.prev_stays refl))))
        (pick 0 (pops (PopMove.cas_win refl))))
      (pick 0 (pops (PopMove.read)))

deque-linearizable_example : (q : List ℕ) × Replay (popped_7.events) q × Holds (popped_7.last.mem) q
deque-linearizable_example = deque-linearizable (popped_7.events) (popped_7.last) (popped_7.run)

deque_whole_example :
    (q l : List ℕ) × Replay (stabilized.events) q
    × (contents (stabilized.last.mem) l ≡ q)
    × IsNodup l
    × (size (length q + 1) (stabilized.last.mem) ≡ some (length q))
    × ((empty (stabilized.last.mem) ≡ true) ↔ (q ≡ []))
    × (peek left (stabilized.last.mem) ≡ first? q)
    × (peek right (stabilized.last.mem) ≡ first? (rev q))
    × (destroy (length q + 1) (stabilized.last.mem) ≡ some l)
unfolding ℕ_discrete
deque_whole_example =
    deque_whole 0 (stabilized.events) (stabilized.last) (stabilized.run) (stable_ne right)
