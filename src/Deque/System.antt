-- ===== src/Deque/System.antt =====
-- include/amino/deque.h: threads over one deque, interleaved in any order.
use amino.Prelude.{ℕ, List, [], ◌∷◌, update}
use amino.Blocking.{Event}
use amino.Deque.Memory.{stable, Owner, Memory, Pc, idle}
use amino.Deque.Moves.{Move}

pub record System : Type 0 where
  pub mem : Memory
  pub pc : ℕ → Pc

pub data Step (s : System) : Event → System → Type 0 where
  pick :
      (t : ℕ) {e : Event} {m : Memory} {p : Pc}
      → Move t s.mem (s.pc t) e m p
      → Step s e (record { mem = m; pc = update s.pc t p })

-- The constructor.
abbrev pub init : System
init = record {
  mem = record {
    anchor = record { at_left = 0; at_right = 0; status = stable };
    value = λ _. 0;
    to_left = λ _. 0;
    to_right = λ _. 0;
    owner = λ _. Owner.free;
    pushes = 0;
  };
  pc = λ _. idle;
}

-- An execution, with its latest event first.
pub data Run : List Event → System → Type 0 where
  start : Run [] init
  later : {es : List Event} {s s' : System} {e : Event} → Run es s → Step s e s' → Run (e ∷ es) s'
