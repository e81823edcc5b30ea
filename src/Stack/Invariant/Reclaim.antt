-- ===== src/Stack/Invariant/Reclaim.antt =====
-- include/amino/smr.h, `delNode` and `scan`: no node goes back to the allocator while a thread reads it.
use amino.Prelude.{
  ℕ, suc, ◌≡◌, ◌≢◌, ◌<◌, ◌≤◌, refl, sym, subst, true, false, List, ◌∷◌, arith, update, contains,
  ℕ_discrete, ◌⊎◌, inl, inr, dec_lt, if◌then◌else◌, ◌==◌, contains-cons, contains-cons_self,
  Bool-cases,
}
use amino.Stack.Memory.{free, retired, Memory, Pc, scan_hp, scan_free, Event, pop_next}
use amino.Stack.Moves.{ReclaimMove}
use amino.Stack.Invariant.Defs.{Protects, IsFine, Scanned, Shape}
use amino.Stack.Invariant.Moves.{Spares, Protects-update}
use amino.Stack.Invariant.Shape.{Good, Shape-owner}

-- A thread that protects a node has its address in its hazard pointer.
Protects-hp :
    (n : ℕ) (m : Memory) (pc : ℕ → Pc) (i a : ℕ) (q : Pc)
    → IsFine n m pc i q
    → Protects q a
    → (m.hp i ≡ a) × (a ≢ 0)
Protects-hp n m pc i a (pop_next old) f pr = ground arith
Protects-hp n m pc i a q f pr = ground arith

abbrev gathered : ℕ → List ℕ → List ℕ
gathered x plist = if x == 0 then plist else x ∷ plist

contains-gathered :
    (x a : ℕ) (plist : List ℕ)
    → (contains a plist ≡ true) ⊎ ((x ≡ a) × (a ≢ 0))
    → contains a (gathered x plist) ≡ true
contains-gathered x a plist h = elim (Bool-cases (x == 0)) [
  | inl z ↦ rw z (ground arith)
  | inr nz ↦ rw nz (ground (arith, contains-cons a x plist, contains-cons_self a plist))
]

module _ (n : ℕ) (m : Memory) (pc : ℕ → Pc) (t : ℕ) where
  -- A node that a thread protects is in plist, so it is not released.
  missed :
      (plist : List ℕ)
      → Scanned n m pc t n plist
      → (a b : ℕ) → m.owner a ≡ retired t
      → contains a plist ≡ false
      → a ≡ b
      → (j : ℕ) → j < n
      → Protects (pc j) b
      → ⊥
  missed plist sc a b own miss e j lt pr =
      cc (sc j a lt lt own (subst (Protects (pc j)) (sym e) pr))

  covers :
      (r v k : ℕ) (plist : List ℕ)
      → ((j : ℕ) → j < n → IsFine n m pc j (pc j))
      → Scanned n m pc t k plist
      → Scanned n m
          (update pc t (scan_hp r v (suc k) (gathered (m.hp k) plist)))
          t
          (suc k)
          (gathered (m.hp k) plist)
  covers r v k plist fine sc i a lt below own pr = elim (Protects-update pc t _ i a pr) [
    | inl (e, none_left) ↦ absurd none_left
    | inr old ↦ elim (dec_lt i k) [
      | yes before ↦ contains-gathered (m.hp k) a plist (inl (sc i a lt before own old))
      | no last ↦
          let e : i ≡ k = omega arith in
          contains-gathered (m.hp k) a plist (
            inr (
              subst (λ x. (m.hp x ≡ a) × (a ≢ 0)) e
                (Protects-hp n m pc i a (pc i) (fine i lt) old)))
    ]
  ]

  covered :
      (r v k : ℕ) (plist : List ℕ)
      → n ≤ k
      → Scanned n m pc t k plist
      → Scanned n m (update pc t (scan_free r v plist)) t n plist
  covered r v k plist h sc i a lt below own pr = elim (Protects-update pc t _ i a pr) [
    | inl (e, none_left) ↦ absurd none_left
    | inr old ↦ sc i a lt (omega arith) own old
  ]

  kept :
      (r v a : ℕ) (plist : List ℕ)
      → Scanned n m pc t n plist
      → Scanned n
          (record m { owner = update m.owner a free })
          (update pc t (scan_free r v plist))
          t
          n
          plist
  kept r v a plist sc i b lt below own pr = elim (Protects-update pc t _ i b pr) [
    | inl (e, none_left) ↦ absurd none_left
    | inr old ↦ sc i b lt below (ground arith) old
  ]

module _ {n : ℕ} {m : Memory} {pc : ℕ → Pc} (t : ℕ) where
  spares :
      {p p' : Pc} {e : Event} {m' : Memory}
      → ReclaimMove n t m p e m' p'
      → pc t ≡ p
      → IsFine n m pc t p
      → Spares n m m' pc t (pc t) p'
  spares (ReclaimMove.release {plist} a own miss) here f = record {
    hp = λ j ne. refl;
    held = λ j b ne o. ground arith;
    guarded = λ j b q lt at pr st. elim (ℕ_discrete a b) [
      | yes e ↦
          absurd
            (missed n m pc t plist f.1 a b own miss e j lt (subst (λ k. Protects k b) (sym at) pr))
      | no e ↦ ground arith
    ];
    unretired = λ j b ne o. ground arith;
    unguarded = λ j b ne o pr. ground arith;
  }
  spares mv here f = record {
    hp = λ j ne. refl;
    held = λ j a ne o. ground arith;
    guarded = λ j a q lt at pr st. ground arith;
    unretired = λ j a ne o. ground arith;
    unguarded = λ j a ne o pr. ground arith;
  }

  pub reclaim-Good :
      {p p' : Pc} {e : Event} {m' : Memory} {l : List ℕ}
      → ReclaimMove n t m p e m' p'
      → pc t ≡ p
      → ((j : ℕ) → j < n → IsFine n m pc j (pc j))
      → IsFine n m pc t p
      → Shape m l
      → Good n m m' pc t p' l e
  reclaim-Good {l} (ReclaimMove.keep {old}) here fine f s = record {
    spares = spares ReclaimMove.keep here f;
    own = f.1;
    after = l;
    shape = Shape-owner m l old (retired t) (λ e. ground arith) s;
    spec = refl;
  }
  reclaim-Good {l} (ReclaimMove.scan {old}) here fine f s = record {
    spares = spares ReclaimMove.scan here f;
    own = (f.1, λ i a lt below own pr. elim below [ ]);
    after = l;
    shape = Shape-owner m l old (retired t) (λ e. ground arith) s;
    spec = refl;
  }
  reclaim-Good {l} (ReclaimMove.copy_hp {r} {v} {k} {plist} h) here fine f s = record {
    spares = spares (ReclaimMove.copy_hp h) here f;
    own = (f.0, covers n m pc t r v k plist fine f.1);
    after = l;
    shape = s;
    spec = refl;
  }
  reclaim-Good {l} (ReclaimMove.copied {r} {v} {k} {plist} h) here fine f s = record {
    spares = spares (ReclaimMove.copied h) here f;
    own = (f.0, covered n m pc t r v k plist h f.1);
    after = l;
    shape = s;
    spec = refl;
  }
  reclaim-Good {l} (ReclaimMove.release {r} {v} {plist} a own miss) here fine f s = record {
    spares = spares (ReclaimMove.release a own miss) here f;
    own = (f.0, kept n m pc t r v a plist f.1);
    after = l;
    shape = Shape-owner m l a free (λ e. ground arith) s;
    spec = refl;
  }
  reclaim-Good {l} ReclaimMove.finish here fine f s = record {
    spares = spares ReclaimMove.finish here f;
    own = f.0;
    after = l;
    shape = s;
    spec = refl;
  }
