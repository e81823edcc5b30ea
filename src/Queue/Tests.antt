-- ===== src/Queue/Tests.antt =====
-- Thread 0 enqueues 7 while thread 1 helps it, and thread 1 dequeues it. The dummy node has the address 9.
use amino.Prelude.{
  ◌<◌, subst, sym, ℕ, ◌+◌, ◌≡◌, ◌↔◌, true, some, length, refl, List, [], ◌∷◌, arith, ℕ_discrete,
  update, IsNodup,
}
use amino.Queue.Memory.{Memory, Pc, idle, Event, free, recycled}
use amino.Queue.Moves.{Move, enqueue, dequeue, EnqueueMove, DequeueMove}
use amino.Queue.System.{System, pick, recycle, Uses, init, Run, AllGuarded, start, later, SpecRun}
use amino.Queue.Invariant.{contents}
use amino.Queue.Whole.{empty, size, destroy, queue_whole}
use amino.Queue.Safety.{Holds, queue-linearizable}

-- An execution: its events, where it ends, and that it is one.
record Trace : Type 0 where
  events : List Event
  last : System
  run : Run 9 events last
  guarded : AllGuarded run
  others : (t : ℕ) → 1 < t → last.pc t ≡ idle

update-idle :
    (f : ℕ → Pc) (t : ℕ) (p : Pc)
    → t < 2
    → ((j : ℕ) → 1 < j → f j ≡ idle)
    → (j : ℕ) → 1 < j
    → update f t p j ≡ idle
update-idle f t p small h j big = ground (arith, small, big, h j big)

abbrev then_do :
    (x : Trace) (t : ℕ) (small : t < 2) {e : Event} {m : Memory} {p : Pc}
    → Move t (x.last.mem) (x.last.pc t) e m p
    → Trace
then_do x t small {e} {m} {p} mv = record {
  events = e ∷ x.events;
  last = record { mem = m; pc = update (x.last.pc) t p };
  run = later (x.run) (pick t mv);
  guarded = (x.guarded, tt);
  others = update-idle (x.last.pc) t p small (x.others);
}

abbrev allocated : Trace
unfolding ℕ_discrete
allocated =
    then_do
      (then_do
        (record { events = []; last = init 9; run = start; guarded = tt; others = λ t h. refl }) 0
        (omega arith) (enqueue (EnqueueMove.alloc 7 1 (omega arith) refl)))
      0 (omega arith) (enqueue EnqueueMove.load_tail)

abbrev checked : Trace
unfolding ℕ_discrete
checked =
    then_do (then_do allocated 0 (omega arith) (enqueue (EnqueueMove.checked refl))) 0 (omega arith)
      (enqueue EnqueueMove.load_next)

abbrev linked_7 : Trace
unfolding ℕ_discrete
linked_7 =
    then_do (then_do checked 0 (omega arith) (enqueue (EnqueueMove.at_end refl))) 0 (omega arith)
      (enqueue (EnqueueMove.cas_win refl))

abbrev loaded : Trace
unfolding ℕ_discrete
loaded =
    then_do
      (then_do (then_do linked_7 1 (omega arith) (dequeue DequeueMove.call)) 1 (omega arith)
        (dequeue DequeueMove.load_head))
      1 (omega arith) (dequeue (DequeueMove.checked refl))

abbrev swung : Trace
unfolding ℕ_discrete
swung = then_do loaded 0 (omega arith) (enqueue (EnqueueMove.swing_win refl))

abbrev seen : Trace
unfolding ℕ_discrete
seen =
    then_do (then_do swung 1 (omega arith) (dequeue (DequeueMove.load_next (omega arith)))) 1
      (omega arith) (dequeue (DequeueMove.stayed refl))

abbrev read_7 : Trace
unfolding ℕ_discrete
read_7 =
    then_do (then_do seen 1 (omega arith) (dequeue (DequeueMove.tail_ahead (omega arith)))) 1
      (omega arith) (dequeue DequeueMove.read)

abbrev dequeued_7 : Trace
unfolding ℕ_discrete
dequeued_7 = then_do read_7 1 (omega arith) (dequeue (DequeueMove.cas_win refl))

-- No thread uses the node 9, which was the dummy node.
both_idle : (Uses (dequeued_7.last.pc 0) 9 → ⊥) × (Uses (dequeued_7.last.pc 1) 9 → ⊥)
unfolding ℕ_discrete
both_idle = ((λ u. u), λ u. u)

unused_9 : (t : ℕ) → Uses (dequeued_7.last.pc t) 9 → ⊥
unused_9 t u = elim (ℕ_discrete 0 t) [
  | yes e ↦ both_idle.0 (subst (λ z. Uses (dequeued_7.last.pc z) 9) (sym e) u)
  | no n0 ↦ elim (ℕ_discrete 1 t) [
    | yes e ↦ both_idle.1 (subst (λ z. Uses (dequeued_7.last.pc z) 9) (sym e) u)
    | no n1 ↦ subst (λ z. Uses z 9) (dequeued_7.others t (ground (arith, n0, n1))) u
  ]
]

-- It is taken back, and thread 0 gets it for the value 8.
abbrev recycled_9 : Trace
unfolding ℕ_discrete
recycled_9 = record {
  events = recycled 9 ∷ dequeued_7.events;
  last = record {
    mem = record dequeued_7.last.mem { owner = update (dequeued_7.last.mem.owner) 9 free };
    pc = dequeued_7.last.pc;
  };
  run = later (dequeued_7.run) (recycle 9 refl);
  guarded = (dequeued_7.guarded, unused_9);
  others = dequeued_7.others;
}

abbrev reused_9 : Trace
unfolding ℕ_discrete
reused_9 = then_do recycled_9 0 (omega arith) (enqueue (EnqueueMove.alloc 8 9 (omega arith) refl))

queue-linearizable_example :
    (q : List ℕ) × SpecRun (reused_9.events) q × Holds (reused_9.last.mem) q
queue-linearizable_example =
    queue-linearizable 9 (reused_9.events) (reused_9.last) (omega arith) (reused_9.run)
      (reused_9.guarded)

queue_whole_example :
    (q l : List ℕ) × SpecRun (swung.events) q
    × (contents (swung.last.mem) l ≡ q)
    × (size (length q + 1) (swung.last.mem) ≡ some (length q))
    × ((empty (swung.last.mem) ≡ true) ↔ (q ≡ []))
    × (destroy (length q + 2) (swung.last.mem) ≡ some (swung.last.mem.head ∷ l))
    × IsNodup (swung.last.mem.head ∷ l)
unfolding ℕ_discrete
queue_whole_example =
    queue_whole 9 0 (swung.events) (swung.last) (omega arith) (swung.run) (swung.guarded) refl
