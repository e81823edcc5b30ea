-- ===== src/Stack/Invariant/Preserve.antt =====
-- include/amino/stack.h: every step keeps the invariant and does what its event says.
use amino.Prelude.{ℕ, ◌≡◌, refl, List, [], update, ℕ_discrete, subst}
use mathlib.Core.Logic.{if_pos, if_neg}
use amino.Stack.Memory.{Memory, Pc, Event}
use amino.Stack.Moves.{Move, push, pop, reclaim, peek}
use amino.Stack.System.{System, Step, pick, init}
use amino.Stack.Spec.{Spec}
use amino.Stack.Invariant.Defs.{IsFine, Inv, contents}
use amino.Stack.Invariant.Moves.{Spares-IsFine}
use amino.Stack.Invariant.Shape.{Good}
use amino.Stack.Invariant.Push.{push-Good}
use amino.Stack.Invariant.Pop.{pop-Good}
use amino.Stack.Invariant.Reclaim.{reclaim-Good}
use amino.Stack.Invariant.Peek.{peek-Good}

module _ {n : ℕ} {m : Memory} {pc : ℕ → Pc} {l : List ℕ} (inv : Inv n m pc l) (t : ℕ) where
  Move-Good :
      {p p' : Pc} {e : Event} {m' : Memory}
      → Move n t m p e m' p'
      → pc t ≡ p
      → IsFine n m pc t p
      → Good n m m' pc t p' l e
  Move-Good (push mv) here f = push-Good t mv here f inv.shape
  Move-Good (pop mv) here f = pop-Good t mv here f inv.shape
  Move-Good (reclaim mv) here f = reclaim-Good t mv here inv.fine f inv.shape
  Move-Good (peek mv) here f = peek-Good t mv here f inv.shape

  Good-Inv :
      {p' : Pc} {e : Event} {m' : Memory} (g : Good n m m' pc t p' l e)
      → Inv n m' (update pc t p') g.after
  Good-Inv {p'} {m'} g = record {
    shape = g.shape;
    fine = λ j lt. elim (ℕ_discrete t j) [
      | yes e ↦ rw (if_pos _ e) (subst (λ i. IsFine n m' (update pc t p') i p') e g.own)
      | no ne ↦ rw (if_neg _ ne) (Spares-IsFine t g.spares j (pc j) lt refl ne (inv.fine j lt))
    ];
  }

-- One step, seen by the users of the stack.
pub Step-Inv :
    {n : ℕ} {s s' : System} {e : Event} {l : List ℕ}
    → Inv n s.mem s.pc l
    → Step n s e s'
    → (l' : List ℕ) × Inv n s'.mem s'.pc l' × Spec e (contents s.mem l) (contents s'.mem l')
Step-Inv inv (pick t lt mv) =
    let g = Move-Good inv t mv refl (inv.fine t lt) in (g.after, Good-Inv inv t g, g.spec)

pub Inv-init : (n : ℕ) → Inv n init.mem init.pc []
Inv-init n = record { shape = record { chain = refl; nodup = tt; owned = tt }; fine = λ t lt. tt }
