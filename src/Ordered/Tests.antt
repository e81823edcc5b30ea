-- ===== src/Ordered/Tests.antt =====
-- Thread 0 inserts 5; thread 1 begins to remove it and marks it; thread 0 searches for it, takes the marked node out and
-- does not find it.
use amino.Prelude.{
  ℕ, ◌≡◌, ◌↔◌, true, false, some, ◌+◌, length, refl, List, [], ◌∷◌, arith, ℕ_discrete, update,
}
use amino.Ordered.Memory.{linked, Memory, Pc, Event}
use amino.Ordered.Moves.{Move, finding, adding, taking, FindMove, AddMove, RemoveMove}
use amino.Ordered.System.{System, pick, init, Run, AllGuarded, start, later, Replay}
use amino.Ordered.Splice.{Rising}
use amino.Ordered.Live.{rank}
use amino.Ordered.Invariant.{contents}
use amino.Ordered.Whole.{empty, front, destroy, first?, ordered_list_whole}
use amino.Ordered.Safety.{Holds, ordered_list-linearizable}

-- An execution: its events, where it ends, and that it is one.
record Trace : Type 0 where
  events : List Event
  last : System
  run : Run events last
  guarded : AllGuarded run

abbrev then_do :
    (x : Trace) (t : ℕ) {e : Event} {m : Memory} {p : Pc}
    → Move t (x.last.mem) (x.last.pc t) e m p
    → Trace
then_do x t {e} {m} {p} mv = record {
  events = e ∷ x.events;
  last = record { mem = m; pc = update (x.last.pc) t p };
  run = later (x.run) (pick t mv);
  guarded = (x.guarded, tt);
}

abbrev inserted : Trace
unfolding ℕ_discrete
inserted =
    then_do
      (then_do
        (then_do
          (then_do
            (then_do
              (then_do (record { events = []; last = init; run = start; guarded = tt }) 0
                (adding (AddMove.alloc 5 1 (omega arith) refl)))
              0 (finding (FindMove.load)))
            0 (finding (FindMove.head_same (refl, refl))))
          0 (finding (FindMove.at_end refl)))
        0 (adding (AddMove.store)))
      0 (adding (AddMove.cas_win (refl, refl)))

abbrev marked_5 : Trace
unfolding ℕ_discrete
marked_5 =
    then_do
      (then_do
        (then_do
          (then_do
            (then_do
              (then_do (then_do (inserted) 1 (taking (RemoveMove.call 5))) 1
                (finding (FindMove.load)))
              1 (finding (FindMove.head_same (refl, refl))))
            1 (finding (FindMove.load_next (omega arith))))
          1 (finding (FindMove.next_same refl refl)))
        1 (finding (FindMove.finds (refl, refl) refl refl)))
      1 (taking (RemoveMove.mark_win (refl, refl)))

abbrev searched : Trace
unfolding ℕ_discrete
searched =
    then_do
      (then_do
        (then_do
          (then_do
            (then_do
              (then_do
                (then_do (then_do (marked_5) 0 (taking (RemoveMove.call_search 5))) 0
                  (finding (FindMove.load)))
                0 (finding (FindMove.head_same (refl, refl))))
              0 (finding (FindMove.load_next (omega arith))))
            0 (finding (FindMove.next_same refl refl)))
          0 (finding (FindMove.dead (refl, refl) refl)))
        0 (finding (FindMove.unlink_win (refl, refl))))
      0 (finding (FindMove.at_end refl))

ordered_list-linearizable_example :
    (q : List ℕ) × (qs : List (List ℕ)) × Replay (searched.events) (q ∷ qs)
    × Holds (searched.last.mem) q
ordered_list-linearizable_example =
    ordered_list-linearizable (searched.events) (searched.last) (searched.run) (searched.guarded)

-- A node that was removed and not yet taken out is still the front.
stale_front : (front (marked_5.last.mem) ≡ some 5) × (contents (marked_5.last.mem) (1 ∷ []) ≡ [])
unfolding front ℕ_discrete
stale_front = (refl, refl)

all_unmarked : (a : ℕ) → inserted.last.mem.owner a ≡ linked → inserted.last.mem.marked a ≡ false
unfolding ℕ_discrete
all_unmarked a h = ground arith

ordered_list_whole_example :
    (q : List ℕ) × (qs : List (List ℕ)) × (l : List ℕ) × Replay (inserted.events) (q ∷ qs)
    × (contents (inserted.last.mem) l ≡ q)
    × Rising (rank (inserted.last.mem.key)) 0 l
    × (front (inserted.last.mem) ≡ first? q)
    × ((empty (inserted.last.mem) ≡ true) ↔ (q ≡ []))
    × (destroy (length l + 1) (inserted.last.mem) ≡ some l)
ordered_list_whole_example =
    ordered_list_whole 0 (inserted.events) (inserted.last) (inserted.run) (inserted.guarded)
      all_unmarked
