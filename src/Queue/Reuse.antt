-- ===== src/Queue/Reuse.antt =====
-- include/amino/queue.h: an execution in which a node that a dequeue uses is taken back. Thread 1 stops before its
-- compare-and-swap, with the head 9 and the value 7. Thread 0 removes 7, the node 9 is taken back, and thread 0
-- enqueues 5 in it and dequeues 5, so that 9 is the head again.
use amino.Prelude.{ℕ, ◌≡◌, refl, List, [], ◌∷◌, arith, ℕ_discrete, update}
use amino.Queue.Memory.{Memory, Pc, Event, free, recycled, dequeued}
use amino.Queue.Moves.{Move, enqueue, dequeue, EnqueueMove, DequeueMove}
use amino.Queue.System.{System, pick, recycle, init, Run, start, later}

-- An execution, whatever is taken back.
record Trace : Type 0 where
  events : List Event
  last : System
  run : Run 9 events last

abbrev then_do :
    (x : Trace) (t : ℕ) {e : Event} {m : Memory} {p : Pc}
    → Move t (x.last.mem) (x.last.pc t) e m p
    → Trace
then_do x t {e} {m} {p} mv = record {
  events = e ∷ x.events;
  last = record { mem = m; pc = update (x.last.pc) t p };
  run = later (x.run) (pick t mv);
}

abbrev enqueued_7_a : Trace
unfolding ℕ_discrete
enqueued_7_a =
    then_do
      (then_do
        (then_do (record { events = []; last = init 9; run = start }) 0
          (enqueue (EnqueueMove.alloc 7 1 (omega arith) refl)))
        0 (enqueue EnqueueMove.load_tail))
      0 (enqueue (EnqueueMove.checked refl))

abbrev enqueued_7_b : Trace
unfolding ℕ_discrete
enqueued_7_b =
    then_do
      (then_do (then_do enqueued_7_a 0 (enqueue EnqueueMove.load_next)) 0
        (enqueue (EnqueueMove.at_end refl)))
      0 (enqueue (EnqueueMove.cas_win refl))

abbrev enqueued_7 : Trace
unfolding ℕ_discrete
enqueued_7 = then_do enqueued_7_b 0 (enqueue (EnqueueMove.swing_win refl))

abbrev about_to_win_a : Trace
unfolding ℕ_discrete
about_to_win_a =
    then_do
      (then_do (then_do enqueued_7 1 (dequeue DequeueMove.call)) 1 (dequeue DequeueMove.load_head))
      1 (dequeue (DequeueMove.checked refl))

abbrev about_to_win_b : Trace
unfolding ℕ_discrete
about_to_win_b =
    then_do
      (then_do (then_do about_to_win_a 1 (dequeue (DequeueMove.load_next (omega arith)))) 1
        (dequeue (DequeueMove.stayed refl)))
      1 (dequeue (DequeueMove.tail_ahead (omega arith)))

abbrev about_to_win : Trace
unfolding ℕ_discrete
about_to_win = then_do about_to_win_b 1 (dequeue DequeueMove.read)

abbrev dequeued_7_a : Trace
unfolding ℕ_discrete
dequeued_7_a =
    then_do
      (then_do (then_do about_to_win 0 (dequeue DequeueMove.call)) 0
        (dequeue DequeueMove.load_head))
      0 (dequeue (DequeueMove.checked refl))

abbrev dequeued_7_b : Trace
unfolding ℕ_discrete
dequeued_7_b =
    then_do
      (then_do (then_do dequeued_7_a 0 (dequeue (DequeueMove.load_next (omega arith)))) 0
        (dequeue (DequeueMove.stayed refl)))
      0 (dequeue (DequeueMove.tail_ahead (omega arith)))

abbrev dequeued_7 : Trace
unfolding ℕ_discrete
dequeued_7 =
    then_do (then_do dequeued_7_b 0 (dequeue DequeueMove.read)) 0
      (dequeue (DequeueMove.cas_win refl))

-- The node 9 is taken back although thread 1 uses it.
abbrev taken_back : Trace
unfolding ℕ_discrete
taken_back = record {
  events = recycled 9 ∷ dequeued_7.events;
  last = record {
    mem = record dequeued_7.last.mem { owner = update (dequeued_7.last.mem.owner) 9 free };
    pc = dequeued_7.last.pc;
  };
  run = later (dequeued_7.run) (recycle 9 refl);
}

abbrev enqueued_5_a : Trace
unfolding ℕ_discrete
enqueued_5_a =
    then_do
      (then_do (then_do taken_back 0 (enqueue (EnqueueMove.alloc 5 9 (omega arith) refl))) 0
        (enqueue EnqueueMove.load_tail))
      0 (enqueue (EnqueueMove.checked refl))

abbrev enqueued_5_b : Trace
unfolding ℕ_discrete
enqueued_5_b =
    then_do
      (then_do (then_do enqueued_5_a 0 (enqueue EnqueueMove.load_next)) 0
        (enqueue (EnqueueMove.at_end refl)))
      0 (enqueue (EnqueueMove.cas_win refl))

abbrev enqueued_5 : Trace
unfolding ℕ_discrete
enqueued_5 = then_do enqueued_5_b 0 (enqueue (EnqueueMove.swing_win refl))

abbrev dequeued_5_a : Trace
unfolding ℕ_discrete
dequeued_5_a =
    then_do
      (then_do (then_do enqueued_5 0 (dequeue DequeueMove.call)) 0 (dequeue DequeueMove.load_head))
      0 (dequeue (DequeueMove.checked refl))

abbrev dequeued_5_b : Trace
unfolding ℕ_discrete
dequeued_5_b =
    then_do
      (then_do (then_do dequeued_5_a 0 (dequeue (DequeueMove.load_next (omega arith)))) 0
        (dequeue (DequeueMove.stayed refl)))
      0 (dequeue (DequeueMove.tail_ahead (omega arith)))

abbrev dequeued_5 : Trace
unfolding ℕ_discrete
dequeued_5 =
    then_do (then_do dequeued_5_b 0 (dequeue DequeueMove.read)) 0
      (dequeue (DequeueMove.cas_win refl))

abbrev dequeued_again : Trace
unfolding ℕ_discrete
dequeued_again = then_do dequeued_5 1 (dequeue (DequeueMove.cas_win refl))

-- The compare-and-swap of thread 1 succeeds, and 7 is dequeued a second time, although it was enqueued once.
second_7 : dequeued_again.events ≡ dequeued 7 ∷ dequeued_5.events
unfolding dequeued_again
second_7 = refl
