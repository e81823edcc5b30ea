-- ===== src/Deque/Preserve.antt =====
-- Each step of any thread keeps the invariant, and does to the list what its event says.
use amino.Prelude.{ℕ, refl, sym, subst, List, [], arith, update, ℕ_discrete}
use amino.Blocking.{Event}
use amino.Blocking.Order.{Spec}
use amino.Deque.Memory.{Memory, Pc}
use amino.Deque.Moves.{Move, pushes, pops, stabilizes}
use amino.Deque.System.{System, Step, pick, init}
use amino.Deque.Invariant.{contents, IsFine, IsSound}
use amino.Deque.Grows.{IsFine-grows}
use amino.Deque.Good.{Good}
use amino.Deque.Push.{push-Good}
use amino.Deque.Pop.{pop-Good}
use amino.Deque.Stabilize.{stabilize-Good}

pub record Inv (m : Memory) (pc : ℕ → Pc) (l : List ℕ) : Type 0 where
  pub sound : IsSound m l
  pub fine : (t : ℕ) → IsFine m l t (pc t)

pub Move-Good :
    {m m' : Memory} {p p' : Pc} {e : Event} (t : ℕ) (l : List ℕ)
    → IsSound m l
    → Move t m p e m' p'
    → IsFine m l t p
    → Good m m' t p' l e
Move-Good t l s (pushes mv) f = push-Good t l s mv f
Move-Good t l s (pops mv) f = pop-Good t l s mv f
Move-Good t l s (stabilizes mv) f = stabilize-Good t l s mv f

Good-Inv :
    {m m' : Memory} {pc : ℕ → Pc} {l : List ℕ} {p' : Pc} {e : Event} (t : ℕ)
    → Inv m pc l
    → (g : Good m m' t p' l e) → Inv m' (update pc t p') g.after
Good-Inv {m} {m'} {pc} {l} {p'} t inv g = record { sound = g.sound; fine = fine }
  where
    fine : (j : ℕ) → IsFine m' g.after j (update pc t p' j)
    fine j = elim (ℕ_discrete t j) [
      | yes y ↦
          subst (λ i. IsFine m' g.after i (update pc t p' i)) y
            (subst (λ q. IsFine m' g.after t q) (ground arith) g.own)
      | no ne ↦
          subst (λ q. IsFine m' g.after j q) (ground (arith, ne))
            (IsFine-grows g.grows g.sound.null j (pc j) (λ y. ne (sym y)) (inv.fine j))
    ]

pub Step-Inv :
    {s s' : System} {e : Event} {l : List ℕ}
    → Inv s.mem s.pc l
    → Step s e s'
    → (l' : List ℕ) × Inv s'.mem s'.pc l' × Spec e (contents s.mem l) (contents s'.mem l')
Step-Inv {l = l} inv (pick t mv) =
    let g = Move-Good t l (inv.sound) mv (inv.fine t) in (g.after, Good-Inv t inv g, g.spec)

pub Inv-init : Inv (init.mem) (init.pc) []
Inv-init = record {
  sound = record {
    shape = record {
      near = record { starts = refl; loose = tt; firm = λ h. tt };
      far = record { starts = refl; loose = tt; firm = λ h. tt };
      nodup = tt;
      all = tt;
    };
    two = λ e h. absurd (ground (arith, h));
    newest = λ e h. absurd (ground (arith, h));
    below = λ a n o. absurd (ground (arith, o));
    apart = λ a b n o o'. absurd (ground (arith, o));
    links = λ e a p. absurd (ground (arith, p.2));
    null = λ n o. ground (arith, o);
  };
  fine = λ t. tt;
}
