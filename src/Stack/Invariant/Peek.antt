-- ===== src/Stack/Invariant/Peek.antt =====
-- include/amino/stack.h, `peekTop`: each of its steps is good.
use amino.Prelude.{ℕ, ◌≡◌, refl, List, [], ◌∷◌, arith, ap, map}
use amino.Stack.Memory.{Memory, Pc, peek_check, peek_read, Event, peeked}
use amino.Stack.Moves.{PeekMove}
use amino.Stack.Invariant.Defs.{IsFine, Shape}
use amino.Stack.Invariant.Moves.{Spares, found_linked, found_null}
use amino.Stack.Invariant.Shape.{Good}

module _ {n : ℕ} {m : Memory} {pc : ℕ → Pc} (t : ℕ) where
  spares :
      {p p' : Pc} {e : Event} {m' : Memory} {l : List ℕ}
      → PeekMove t m p e m' p'
      → pc t ≡ p
      → IsFine n m pc t p
      → Shape m l
      → Spares n m m' pc t (pc t) p'
  spares {l} (PeekMove.checked {old} h) here f s = record {
    hp = λ j ne. refl;
    held = λ j a ne o. (refl, refl, refl);
    guarded = λ j a q lt at pr st. (st, refl, refl);
    unretired = λ j a ne o. o;
    unguarded = λ j a ne o pr. ground (arith, found_linked m l old s h f.0);
  }
  spares mv here f s = record {
    hp = λ j ne. ground arith;
    held = λ j a ne o. (refl, refl, refl);
    guarded = λ j a q lt at pr st. (st, refl, refl);
    unretired = λ j a ne o. o;
    unguarded = λ j a ne o pr. ground arith;
  }

  -- The node that was found at the top holds the first value.
  found :
      (old : ℕ) (l : List ℕ)
      → m.top ≡ old
      → pc t ≡ peek_check old
      → IsFine n m pc t (peek_check old)
      → Shape m l
      → Good n m m pc t (peek_read old (m.value old)) l (peeked (m.value old))
  found old [] h here f s = absurd (ground (arith, s.chain))
  found old (b ∷ l) h here f s = record {
    spares = spares {l = b ∷ l} (PeekMove.checked h) here f s;
    own = ground (arith, found_linked m (b ∷ l) old s h f.0);
    after = b ∷ l;
    shape = s;
    spec = (refl, map m.value l, ground (arith, s.chain.0));
  }

  pub peek-Good :
      {p p' : Pc} {e : Event} {m' : Memory} {l : List ℕ}
      → PeekMove t m p e m' p'
      → pc t ≡ p
      → IsFine n m pc t p
      → Shape m l
      → Good n m m' pc t p' l e
  peek-Good {l} (PeekMove.checked {old} h) here f s = found old l h here f s
  peek-Good {l} (PeekMove.load_null h) here f s = record {
    spares = spares (PeekMove.load_null h) here f s;
    own = tt;
    after = l;
    shape = s;
    spec = (refl, ap (map m.value) (found_null m l s h));
  }
  peek-Good {l} (PeekMove.load_top h) here f s = record {
    spares = spares (PeekMove.load_top h) here f s;
    own = h;
    after = l;
    shape = s;
    spec = refl;
  }
  peek-Good {l} mv here f s = record {
    spares = spares mv here f s;
    own = ground arith;
    after = l;
    shape = record { chain = s.chain; nodup = s.nodup; owned = s.owned };
    spec = refl;
  }
