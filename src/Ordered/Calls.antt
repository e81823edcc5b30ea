-- ===== src/Ordered/Calls.antt =====
-- include/amino/ordered_list.h, `add`, `remove` and `search`: each of their steps is good.
use amino.Prelude.{ℕ, Bool, refl, List, arith}
use amino.Ordered.Memory.{Memory, Event, Pc, idle}
use amino.Ordered.Moves.{AddMove, RemoveMove}
use amino.Ordered.Invariant.{IsFine, IsSound}
use amino.Ordered.Good.{Good}
use amino.Ordered.Cut.{cuts}
use amino.Ordered.Find.{moves_on, reads}
use amino.Ordered.Update.{adds, marks}
use amino.Ordered.Alloc.{allocates, stores}

module _ (saw : ℕ → ℕ → Bool → Type 0) {m : Memory} (t : ℕ) (l : List ℕ) (s : IsSound m l) where
  pub add-Good :
      {p p' : Pc} {e : Event} {m' : Memory}
      → AddMove t m p e m' p'
      → IsFine m saw t p
      → Good saw m m' t p' l e
  add-Good (AddMove.alloc d node nz fr) f = allocates saw t l s d node nz fr
  add-Good (AddMove.store {d} {node} {prev} {cur}) (new, p, b) =
      stores saw t l s node (ground (arith, new.0)) new.1 d prev cur new p b
  add-Good (AddMove.cas_win {d} {node} {prev} {cur} h) (new, p, b, to) =
      adds saw t l s d node prev cur new p b to h
  add-Good (AddMove.cas_lose h) f = moves_on s (λ saw'. f.0)

  pub remove-Good :
      {p p' : Pc} {e : Event} {m' : Memory}
      → RemoveMove t m p e m' p'
      → IsFine m saw t p
      → Good saw m m' t p' l e
  remove-Good (RemoveMove.call d) f = reads s refl (λ saw' now later. tt)
  remove-Good (RemoveMove.call_search d) f = reads s refl (λ saw' now later. tt)
  remove-Good (RemoveMove.mark_win {d} {prev} {cur} {next} h) (p, c, k) =
      marks saw t l s d prev cur next p c k h
  remove-Good (RemoveMove.mark_lose h) f = moves_on s (λ saw'. tt)
  remove-Good (RemoveMove.cut_win {d} {prev} {cur} {next} h) (p, c, x) =
      cuts s d prev cur next p h c x saw t idle (λ l' s' saw' now. tt)
  remove-Good (RemoveMove.cut_lose h) f = moves_on s (λ saw'. tt)
