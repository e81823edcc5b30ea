-- ===== src/Stack/Invariant/Push.antt =====
-- include/amino/stack.h, `push`: each of its steps is good.
use amino.Prelude.{ℕ, ◌≡◌, refl, List, ◌∷◌, arith, map-update}
use amino.Stack.Memory.{fresh, Memory, Pc, Event}
use amino.Stack.Moves.{PushMove}
use amino.Stack.Invariant.Defs.{IsFine, Shape}
use amino.Stack.Invariant.Moves.{Spares}
use amino.Stack.Invariant.Shape.{Good, unlinked, Shape-write, Shape-next, Shape-push}

module _ {n : ℕ} {m : Memory} {pc : ℕ → Pc} (t : ℕ) where
  spares :
      {p p' : Pc} {e : Event} {m' : Memory}
      → PushMove t m p e m' p'
      → pc t ≡ p
      → IsFine n m pc t p
      → Spares n m m' pc t (pc t) p'
  spares (PushMove.alloc d node nz fr) here f = record {
    hp = λ j ne. ground arith;
    held = λ j a ne o. ground arith;
    guarded = λ j a q lt at pr st. ground arith;
    unretired = λ j a ne o. ground arith;
    unguarded = λ j a ne o pr. ground arith;
  }
  spares mv here f = record {
    hp = λ j ne. ground arith;
    held = λ j a ne o. ground arith;
    guarded = λ j a q lt at pr st. ground arith;
    unretired = λ j a ne o. ground arith;
    unguarded = λ j a ne o pr. ground arith;
  }

  pub push-Good :
      {p p' : Pc} {e : Event} {m' : Memory} {l : List ℕ}
      → PushMove t m p e m' p'
      → pc t ≡ p
      → IsFine n m pc t p
      → Shape m l
      → Good n m m' pc t p' l e
  push-Good {l} (PushMove.alloc d node nz fr) here f s = record {
    spares = spares (PushMove.alloc d node nz fr) here f;
    own = ground arith;
    after = l;
    shape = Shape-write m l node d 0 (fresh t) (λ e. ground arith) s;
    spec = map-update m.value node d l (unlinked m l node s (λ e. ground arith));
  }
  push-Good {l} PushMove.load_top here f s = record {
    spares = spares PushMove.load_top here f;
    own = f;
    after = l;
    shape = s;
    spec = refl;
  }
  push-Good {l} (PushMove.link {node} {old}) here f s = record {
    spares = spares PushMove.link here f;
    own = ground arith;
    after = l;
    shape = Shape-next m l node old (λ e. ground arith) s;
    spec = refl;
  }
  push-Good {l} (PushMove.cas_win {node} h) here f s = record {
    spares = spares (PushMove.cas_win h) here f;
    own = tt;
    after = node ∷ l;
    shape = Shape-push m l node (λ e. ground arith) f.1 (ground arith) s;
    spec = ground arith;
  }
  push-Good {l} (PushMove.cas_lose h) here f s = record {
    spares = spares (PushMove.cas_lose h) here f;
    own = (f.0, f.1, f.2);
    after = l;
    shape = s;
    spec = refl;
  }
