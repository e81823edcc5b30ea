-- ===== src/Queue/Preserve.antt =====
-- include/amino/queue.h: every step keeps the invariant and does what its event says.
use amino.Prelude.{ℕ, ◌≢◌, refl, sym, List, [], arith, update, ℕ_discrete, subst, inl}
use mathlib.Core.Logic.{if_pos, if_neg}
use amino.Queue.Memory.{Memory, Pc, Event}
use amino.Queue.Moves.{Move, enqueue, dequeue}
use amino.Queue.Recycle.{IsFine-recycle, Shape-recycle}
use amino.Queue.System.{System, Step, IsGuarded, pick, recycle, init, Spec}
use amino.Queue.Invariant.{IsFine, Inv, contents}
use amino.Queue.Grows.{IsFine-grows}
use amino.Queue.Good.{Good}
use amino.Queue.Enqueue.{enqueue-Good}
use amino.Queue.Dequeue.{dequeue-Good}

module _ {m : Memory} {pc : ℕ → Pc} {l : List ℕ} (inv : Inv m pc l) (t : ℕ) where
  Move-Good :
      {p p' : Pc} {e : Event} {m' : Memory} → Move t m p e m' p' → IsFine m t p → Good m m' t p' l e
  Move-Good (enqueue mv) f = enqueue-Good t l inv.shape mv f
  Move-Good (dequeue mv) f = dequeue-Good t l inv.shape mv f

  Good-Inv :
      {p' : Pc} {e : Event} {m' : Memory} (g : Good m m' t p' l e) → Inv m' (update pc t p') g.after
  Good-Inv {p'} {m'} g = record {
    shape = g.shape;
    fine = λ j. elim (ℕ_discrete t j) [
      | yes e ↦ rw (if_pos _ e) (subst (λ i. IsFine m' i p') e g.own)
      | no ne ↦ rw (if_neg _ ne) (IsFine-grows g.grows j (pc j) (λ e. ne (sym e)) (inv.fine j))
    ];
  }

-- One step, seen by the users of the queue.
pub Step-Inv :
    {s s' : System} {e : Event} {l : List ℕ}
    → Inv s.mem s.pc l
    → (st : Step s e s') → IsGuarded st
    → (l' : List ℕ) × Inv s'.mem s'.pc l' × Spec e (contents s.mem l) (contents s'.mem l')
Step-Inv inv (pick t mv) u =
    let g = Move-Good inv t mv (inv.fine t) in (g.after, Good-Inv inv t g, g.spec)
Step-Inv {s} {l} inv (recycle a gone) u = (
  l,
  record {
    shape = Shape-recycle s.mem a gone l inv.shape;
    fine = λ j. IsFine-recycle s.mem a gone j (s.pc j) (u j) (inv.fine j);
  },
  refl,
)

pub Inv-init : (dummy : ℕ) → dummy ≢ 0 → Inv (init dummy).mem (init dummy).pc []
Inv-init dummy nz = record {
  shape = record {
    chain = (refl, nz, refl);
    nodup = (tt, tt);
    linked_all = (ground arith, tt);
    linked_only = λ a h. inl (ground (arith, h));
    removed_next = λ a h. absurd (ground (arith, h));
    tail_in = inl refl;
  };
  fine = λ t. tt;
}
