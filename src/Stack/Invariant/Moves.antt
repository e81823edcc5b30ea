-- ===== src/Stack/Invariant/Moves.antt =====
-- What a step of thread `t` leaves alone, and why the facts of another thread survive it.
use amino.Prelude.{
  ℕ, ◌≡◌, ◌≢◌, ◌<◌, refl, true, List, [], ◌∷◌, arith, update, ◌⊎◌, inl, inr, ℕ_discrete, subst, sym,
  ◌∙◌,
}
use mathlib.Core.Logic.{if_pos, if_neg}
use amino.Stack.Memory.{
  fresh, linked, taken, retired, Memory, Pc, idle, push_load, push_link, push_cas, pop_next,
  pop_cas, pop_retire, pop_read, pop_delete, scan_hp, scan_free, peek_read,
}
use amino.Stack.Invariant.Defs.{Protects, is_settled, Scanned, IsFine, Shape}

-- A node that `top` points at is linked.
pub top_linked : (m : Memory) (l : List ℕ) → Shape m l → m.top ≢ 0 → m.owner m.top ≡ linked
top_linked m [] s h = absurd (h s.chain)
top_linked m (a ∷ l) s h = ground (arith, s.chain.0, s.owned.0)

-- So is one that a thread has found there.
pub found_linked :
    (m : Memory) (l : List ℕ) (old : ℕ) → Shape m l → m.top ≡ old → old ≢ 0 → m.owner old ≡ linked
found_linked m l old s e nz =
    subst (λ a. m.owner a ≡ linked) e (top_linked m l s (λ z. nz (sym e ∙ z)))

pub found_null : (m : Memory) (l : List ℕ) → Shape m l → m.top ≡ 0 → l ≡ []
found_null m [] s e = refl
found_null m (a ∷ l) s e = absurd (s.chain.1 (sym s.chain.0 ∙ e))

-- What thread `t`, going from `p` to `p'`, does not do to the others.
pub record Spares (n : ℕ) (m m' : Memory) (pc : ℕ → Pc) (t : ℕ) (p p' : Pc) : Type 0 where
  pub hp : (j : ℕ) → t ≢ j → m'.hp j ≡ m.hp j
  pub held :
      (j a : ℕ)
      → t ≢ j
      → (m.owner a ≡ fresh j) ⊎ (m.owner a ≡ taken j)
      → (m'.owner a ≡ m.owner a) × (m'.next a ≡ m.next a) × (m'.value a ≡ m.value a)
  pub guarded :
      (j a : ℕ) (q : Pc)
      → j < n
      → pc j ≡ q
      → Protects q a
      → is_settled (m.owner a) ≡ true
      → (is_settled (m'.owner a) ≡ true) × (m'.next a ≡ m.next a) × (m'.value a ≡ m.value a)
  pub unretired : (j a : ℕ) → t ≢ j → m'.owner a ≡ retired j → m.owner a ≡ retired j
  pub unguarded : (j a : ℕ) → t ≢ j → m.owner a ≡ retired j → Protects p' a → Protects p a

pub Protects-update :
    (pc : ℕ → Pc) (t : ℕ) (p' : Pc) (i a : ℕ)
    → Protects (update pc t p' i) a
    → ((t ≡ i) × Protects p' a) ⊎ Protects (pc i) a
Protects-update pc t p' i a pr = elim (ℕ_discrete t i) [
  | yes e ↦ inl (e, (rw (if_pos _ e) at pr))
  | no e ↦ inr (rw (if_neg _ e) at pr)
]

module _ {n : ℕ} {m m' : Memory} {pc : ℕ → Pc} (t : ℕ) {p' : Pc}
    (sp : Spares n m m' pc t (pc t) p') where
  scanned :
      (j k : ℕ) (ps : List ℕ) → t ≢ j → Scanned n m pc j k ps → Scanned n m' (update pc t p') j k ps
  scanned j k ps ne sc i a lt below own pr = elim (Protects-update pc t p' i a pr) [
    | inl (e, new) ↦
        sc i a lt below was (subst (λ k. Protects (pc k) a) e (sp.unguarded j a ne was new))
    | inr old ↦ sc i a lt below was old
  ]
    where
      was : m.owner a ≡ retired j
      was = sp.unretired j a ne own

  pub Spares-IsFine :
      (j : ℕ) (q : Pc)
      → j < n
      → pc j ≡ q
      → t ≢ j
      → IsFine n m pc j q
      → IsFine n m' (update pc t p') j q
  Spares-IsFine j idle lt at ne f = tt
  Spares-IsFine j (scan_hp r v k ps) lt at ne f = (f.0, scanned j k ps ne f.1)
  Spares-IsFine j (scan_free r v ps) lt at ne f = (f.0, scanned j n ps ne f.1)
  Spares-IsFine j (push_load d node) lt at ne f = ground (arith, sp.held j node ne (inl f.0))
  Spares-IsFine j (push_link d node old) lt at ne f = ground (arith, sp.held j node ne (inl f.0))
  Spares-IsFine j (push_cas d node old) lt at ne f = ground (arith, sp.held j node ne (inl f.0))
  Spares-IsFine j (pop_next old) lt at ne f =
      ground (arith, sp.hp j, sp.guarded j old (pop_next old) lt at refl)
  Spares-IsFine j (pop_cas old new) lt at ne f =
      ground (arith, sp.hp j, sp.guarded j old (pop_cas old new) lt at refl)
  Spares-IsFine j (pop_retire old v) lt at ne f = ground (arith, sp.held j old ne (inr f.0))
  Spares-IsFine j (pop_read old v) lt at ne f = ground (arith, sp.held j old ne (inr f.0))
  Spares-IsFine j (pop_delete old r v) lt at ne f = ground (arith, sp.held j old ne (inr f.0))
  Spares-IsFine j (peek_read old v) lt at ne f =
      ground (arith, sp.hp j, sp.guarded j old (peek_read old v) lt at refl)
  Spares-IsFine j q lt at ne f = ground (arith, sp.hp j)
