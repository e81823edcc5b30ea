-- ===== src/Stack/Invariant/Pop.antt =====
-- include/amino/stack.h, `pop`: each of its steps is good.
use amino.Prelude.{ℕ, ◌≡◌, refl, List, [], ◌∷◌, arith, update, ap, map, subst}
use amino.Stack.Memory.{taken, Memory, Pc, pop_cas, pop_retire, Event, popped}
use amino.Stack.Moves.{PopMove}
use amino.Stack.Invariant.Defs.{IsFine, Shape}
use amino.Stack.Invariant.Moves.{Spares, found_linked, found_null}
use amino.Stack.Invariant.Shape.{Good, Shape-pop}

module _ {n : ℕ} {m : Memory} {pc : ℕ → Pc} (t : ℕ) where
  spares :
      {p p' : Pc} {e : Event} {m' : Memory} {l : List ℕ}
      → PopMove t m p e m' p'
      → pc t ≡ p
      → IsFine n m pc t p
      → Shape m l
      → Spares n m m' pc t (pc t) p'
  spares {l} PopMove.call here f s = record {
    hp = λ j ne. refl;
    held = λ j a ne o. (refl, refl, refl);
    guarded = λ j a q lt at pr st. (st, refl, refl);
    unretired = λ j a ne o. o;
    unguarded = λ j a ne o pr. ground arith;
  }
  spares {l} (PopMove.checked {old} h) here f s = record {
    hp = λ j ne. refl;
    held = λ j a ne o. (refl, refl, refl);
    guarded = λ j a q lt at pr st. (st, refl, refl);
    unretired = λ j a ne o. o;
    unguarded = λ j a ne o pr. ground (arith, found_linked m l old s h f.0);
  }
  spares {l} (PopMove.cas_win {old} h) here f s = record {
    hp = λ j ne. refl;
    held = λ j a ne o. ground (arith, found_linked m l old s h f.0);
    guarded = λ j a q lt at pr st. ground arith;
    unretired = λ j a ne o. ground arith;
    unguarded = λ j a ne o pr. ground arith;
  }
  spares mv here f s = record {
    hp = λ j ne. ground arith;
    held = λ j a ne o. (refl, refl, refl);
    guarded = λ j a q lt at pr st. (st, refl, refl);
    unretired = λ j a ne o. o;
    unguarded = λ j a ne o pr. ground arith;
  }

  -- The compare-and-swap takes the first node off, and its successor becomes the top.
  won :
      (old new : ℕ) (l : List ℕ)
      → m.top ≡ old
      → pc t ≡ pop_cas old new
      → IsFine n m pc t (pop_cas old new)
      → Shape m l
      → Good n m
          (record m { top = new; owner = update m.owner old (taken t) })
          pc
          t
          (pop_retire old (m.value old))
          l
          (popped (m.value old))
  won old new [] h here f s = absurd (ground (arith, s.chain))
  won old new (b ∷ l) h here f s = record {
    spares = spares {l = b ∷ l} (PopMove.cas_win h) here f s;
    own = ground arith;
    after = l;
    shape =
        subst (λ x. Shape (record m { top = x; owner = update m.owner old (taken t) }) l) f.3
          (Shape-pop m l old b (taken t) s h);
    spec = ground (arith, s.chain.0);
  }

  pub pop-Good :
      {p p' : Pc} {e : Event} {m' : Memory} {l : List ℕ}
      → PopMove t m p e m' p'
      → pc t ≡ p
      → IsFine n m pc t p
      → Shape m l
      → Good n m m' pc t p' l e
  pop-Good {l} (PopMove.cas_win {old} {new} h) here f s = won old new l h here f s
  pop-Good {l} (PopMove.load_null h) here f s = record {
    spares = spares (PopMove.load_null h) here f s;
    own = tt;
    after = l;
    shape = s;
    spec = (refl, ap (map m.value) (found_null m l s h));
  }
  pop-Good {l} (PopMove.employ) here f s = record {
    spares = spares PopMove.employ here f s;
    own = ground arith;
    after = l;
    shape = record { chain = s.chain; nodup = s.nodup; owned = s.owned };
    spec = refl;
  }
  pop-Good {l} (PopMove.retire) here f s = record {
    spares = spares PopMove.retire here f s;
    own = ground arith;
    after = l;
    shape = record { chain = s.chain; nodup = s.nodup; owned = s.owned };
    spec = refl;
  }
  pop-Good {l} PopMove.call here f s = record {
    spares = spares PopMove.call here f s;
    own = tt;
    after = l;
    shape = s;
    spec = refl;
  }
  pop-Good {l} (PopMove.load_top h) here f s = record {
    spares = spares (PopMove.load_top h) here f s;
    own = h;
    after = l;
    shape = s;
    spec = refl;
  }
  pop-Good {l} (PopMove.checked {old} h) here f s = record {
    spares = spares (PopMove.checked h) here f s;
    own = ground (arith, found_linked m l old s h f.0);
    after = l;
    shape = s;
    spec = refl;
  }
  pop-Good {l} mv here f s = record {
    spares = spares mv here f s;
    own = ground arith;
    after = l;
    shape = s;
    spec = refl;
  }
