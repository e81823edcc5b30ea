-- ===== src/Stack/Tests.antt =====
-- Executions of two threads over one stack: thread 0 pushes 7, thread 1 pops or peeks.
use amino.Prelude.{
  ℕ, ◌≡◌, ◌≢◌, refl, List, [], ◌∷◌, arith, some, true, ◌↔◌, IsNodup, All, ℕ_discrete, contains,
}
use amino.Stack.Memory.{free, Event}
use amino.Stack.Moves.{push, pop, reclaim, peek, PushMove, PopMove, ReclaimMove, PeekMove}
use amino.Stack.System.{System, Step, pick, init}
use amino.Stack.Run.{Run, start, later, SpecRun, Holds}
use amino.Stack.Invariant.{Chain}
use amino.Stack.Whole.{empty, size, destroy, size_and_destroy}
use amino.Stack.Safety.{
  Uses, Run-linearizable, pop_returns_taken, peek_returns_top, no_use_after_free, pop_cas_sound,
  scan_releases_unguarded,
}

record Trace : Type 0 where
  events : List Event
  last : System
  run : Run 2 events last

abbrev begin : Trace
begin = record { events = []; last = init; run = start }

abbrev then_do : (t : Trace) {e : Event} {s : System} → Step 2 t.last e s → Trace
then_do t st = record { events = _; last = _; run = later t.run st }

abbrev allocated : Trace
unfolding ℕ_discrete contains
allocated = then_do begin (pick 0 (omega arith) (push (PushMove.alloc 7 1 (omega arith) refl)))

abbrev holding_7 : Trace
unfolding ℕ_discrete contains
holding_7 =
    then_do
      (then_do (then_do allocated (pick 0 (omega arith) (push PushMove.load_top)))
        (pick 0 (omega arith) (push PushMove.link)))
      (pick 0 (omega arith) (push (PushMove.cas_win refl)))

abbrev validated : Trace
unfolding ℕ_discrete contains
validated =
    then_do
      (then_do
        (then_do (then_do holding_7 (pick 1 (omega arith) (pop PopMove.call)))
          (pick 1 (omega arith) (pop (PopMove.load_top (omega arith)))))
        (pick 1 (omega arith) (pop PopMove.employ)))
      (pick 1 (omega arith) (pop (PopMove.checked refl)))

abbrev before_cas : Trace
unfolding ℕ_discrete contains
before_cas = then_do validated (pick 1 (omega arith) (pop PopMove.load_next))

abbrev popped_7 : Trace
unfolding ℕ_discrete contains
popped_7 =
    then_do
      (then_do (then_do before_cas (pick 1 (omega arith) (pop (PopMove.cas_win refl))))
        (pick 1 (omega arith) (pop PopMove.retire)))
      (pick 1 (omega arith) (pop PopMove.read))

abbrev scanned : Trace
unfolding ℕ_discrete contains
scanned =
    then_do
      (then_do
        (then_do (then_do popped_7 (pick 1 (omega arith) (reclaim ReclaimMove.scan)))
          (pick 1 (omega arith) (reclaim (ReclaimMove.copy_hp (omega arith)))))
        (pick 1 (omega arith) (reclaim (ReclaimMove.copy_hp (omega arith)))))
      (pick 1 (omega arith) (reclaim (ReclaimMove.copied (omega arith))))

abbrev released : Trace
unfolding ℕ_discrete contains
released =
    then_do (then_do scanned (pick 1 (omega arith) (reclaim (ReclaimMove.release 1 refl refl))))
      (pick 1 (omega arith) (reclaim ReclaimMove.finish))

abbrev peeked_7 : Trace
unfolding ℕ_discrete contains
peeked_7 =
    then_do
      (then_do
        (then_do
          (then_do
            (then_do (then_do holding_7 (pick 1 (omega arith) (peek PeekMove.call)))
              (pick 1 (omega arith) (peek (PeekMove.load_top (omega arith)))))
            (pick 1 (omega arith) (peek PeekMove.employ)))
          (pick 1 (omega arith) (peek (PeekMove.checked refl))))
        (pick 1 (omega arith) (peek PeekMove.read)))
      (pick 1 (omega arith) (peek PeekMove.retire))

Run-linearizable_example : (xs : List ℕ) × SpecRun released.events xs × Holds released.last.mem xs
Run-linearizable_example = Run-linearizable released.run

pop_returns_taken_example : ◌≡◌ {A = ℕ} 7 7
unfolding ℕ_discrete contains
pop_returns_taken_example = pop_returns_taken {t = 1} released.run (omega arith) refl

peek_returns_top_example : ◌≡◌ {A = ℕ} 7 7
unfolding ℕ_discrete contains
peek_returns_top_example = peek_returns_top {t = 1} peeked_7.run (omega arith) refl

no_use_after_free_example : validated.last.mem.owner 1 ≢ free
unfolding ℕ_discrete contains
no_use_after_free_example = no_use_after_free {t = 1} validated.run (omega arith) refl

pop_cas_sound_example :
    (l : List ℕ) × Chain before_cas.last.mem.next before_cas.last.mem.top (1 ∷ l)
    × Chain before_cas.last.mem.next 0 l
unfolding ℕ_discrete contains
pop_cas_sound_example = pop_cas_sound {t = 1} before_cas.run (omega arith) refl refl

scan_releases_unguarded_example : ¬ Uses (scanned.last.pc 0) 1
unfolding ℕ_discrete contains
scan_releases_unguarded_example =
    scan_releases_unguarded {t = 1} {a = 1} {i = 0} {plist = []} scanned.run (omega arith) refl refl
      refl (omega arith)

size_and_destroy_example :
    (empty holding_7.last.mem ≡ true ↔ (◌≡◌ {A = List ℕ} (1 ∷ []) []))
    × (size 2 holding_7.last.mem ≡ some 1)
    × (destroy 2 holding_7.last.mem ≡ some (1 ∷ []))
    × IsNodup (1 ∷ [])
    × All (λ a. holding_7.last.mem.owner a ≢ free) (1 ∷ [])
unfolding ℕ_discrete contains
size_and_destroy_example =
    size_and_destroy (1 ∷ []) 2 holding_7.run (refl, omega arith, refl) (omega arith)
