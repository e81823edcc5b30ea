-- ===== src/Stack/Run.antt =====
-- include/amino/stack.h: whole executions, and the runs of the list that they stand for.
use amino.Prelude.{ℕ, ◌≡◌, List, [], ◌∷◌, map}
use amino.Stack.Memory.{Memory, Event}
use amino.Stack.System.{System, Step, init}
use amino.Stack.Spec.{Spec}
use amino.Stack.Invariant.{Chain}

-- The events come latest first.
pub data Run (n : ℕ) : List Event → System → Type 0 where
  start : Run n [] init
  later :
      {es : List Event} {s s' : System} {e : Event} → Run n es s → Step n s e s' → Run n (e ∷ es) s'

pub data SpecRun : List Event → List ℕ → Type 0 where
  empty : SpecRun [] []
  next :
      {es : List Event} {e : Event} {xs xs' : List ℕ}
      → SpecRun es xs
      → Spec e xs xs'
      → SpecRun (e ∷ es) xs'

-- The nodes from `top` on hold the values `xs`.
abbrev pub Holds : Memory → List ℕ → Type 0
Holds m xs = (l : List ℕ) × Chain m.next m.top l × (map m.value l ≡ xs)
