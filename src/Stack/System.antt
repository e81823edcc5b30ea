-- ===== src/Stack/System.antt =====
-- include/amino/stack.h: `n` threads over one stack, interleaved in any order.
use amino.Prelude.{ℕ, ◌<◌, update}
use amino.Stack.Memory.{Owner, Memory, Pc, Event}
use amino.Stack.Moves.{Move}

pub record System : Type 0 where
  pub mem : Memory
  pub pc : ℕ → Pc

pub data Step (n : ℕ) (s : System) : Event → System → Type 0 where
  pick :
      (t : ℕ) {e : Event} {m : Memory} {p : Pc}
      → t < n
      → Move n t s.mem (s.pc t) e m p
      → Step n s e (record { mem = m; pc = update s.pc t p })

-- The constructor of the stack: no node, and nothing guarded.
abbrev pub init : System
init = record {
  mem = record { top = 0; value = λ _. 0; next = λ _. 0; hp = λ _. 0; owner = λ _. Owner.free };
  pc = λ _. Pc.idle;
}
