-- ===== src/Parallel/Slices.antt =====
-- include/amino/foreach.h, transform.h, accumulate.h: how a range is cut. Positions count from the
-- beginning of the range. `none` is undefined behaviour: a division by zero, or an array index of -1.
use mathlib.Core.List.{Perm, Permᴰ}
use mathlib.Core.Logic.{∥∥₁_elim}
use native.Mathlib.Nat.{ℕ_set}
use amino.Prelude.{
  ℕ, zero, suc, ◌+◌, ◌-◌, ◌*◌, ◌/◌, ◌≡◌, ◌≤◌, refl, ◌∙◌, Bool, ◌&&◌, List, [], ◌∷◌, ◌++◌, arith,
  Option, none, some, leb, ltb, ◌==◌, if◌then◌else◌, Bool-cases, subst, inl, inr,
}

pub record Slice : Type 0 where
  pub first : ℕ
  pub last : ℕ

-- The slices of the `for` loop, from round `i` on, `n` of them.
unfoldable pub heads : ℕ → ℕ → ℕ → List Slice
heads zero i step = []
heads (suc n) i step = record { first = i * step; last = (i + 1) * step } ∷ heads n (i + 1) step

-- The loop, and the last slice up to the end of the range.
unfoldable pub cut : ℕ → ℕ → ℕ → Option (List Slice)
cut div step len =
    if div == 0
    then none
    else some (heads (div - 1) 0 step ++ record { first = (div - 1) * step; last = len } ∷ [])

-- `for_each`: the step is at least 1. The code keeps the length and the number of slices in ints: both are taken to fit,
-- and the executor to give no negative number.
unfoldable pub foreach_slices : ℕ → ℕ → Option (List Slice)
unfolding cut
foreach_slices div len =
    if div == 0 then none else if len / div == 0 then cut len 1 len else cut div (len / div) len

-- `transform` and `accumulate`, on a range that is not short.
unfoldable pub even_slices : ℕ → ℕ → Option (List Slice)
unfolding cut
even_slices threads len = if threads == 0 then none else cut threads (len / threads) len

-- How many of the slices hold position `j`.
abbrev pub inside : ℕ → Slice → Bool
inside j s = leb s.first j && ltb j s.last

abbrev pub visits : ℕ → List Slice → ℕ
visits j [] = 0
visits j (s ∷ l) = (if inside j s then 1 else 0) + visits j l

visits-append : (j : ℕ) (l r : List Slice) → visits j (l ++ r) ≡ visits j l + visits j r
visits-append j [] r = omega arith
visits-append j (s ∷ l) r = omega (arith, visits-append j l r)

Permᴰ-visits : (j : ℕ) {l r : List Slice} → Permᴰ l r → visits j l ≡ visits j r
Permᴰ-visits j Permᴰ.nil = refl
Permᴰ-visits j (Permᴰ.cons {a} {l₁} {l₂} e p) =
    subst (λ c. visits j (a ∷ l₁) ≡ visits j (c ∷ l₂)) e (omega (arith, Permᴰ-visits j p))
Permᴰ-visits j (Permᴰ.swap {a} {b} {a'} {l} e f) =
    subst (λ c. visits j (a ∷ b ∷ l) ≡ visits j (a' ∷ c ∷ l)) e
      (subst (λ c. visits j (a ∷ b ∷ l) ≡ visits j (c ∷ a ∷ l)) f (omega arith))
Permᴰ-visits j (Permᴰ.trans p q) = Permᴰ-visits j p ∙ Permᴰ-visits j q

-- The order in which the tasks run does not matter for how often a position is met.
pub Perm-visits : (j : ℕ) (l r : List Slice) → Perm l r → visits j l ≡ visits j r
Perm-visits j l r p = ∥∥₁_elim p (ℕ_set _ _) (Permᴰ-visits j)

visits-heads :
    (j n i step : ℕ)
    → visits j (heads n i step) ≡ (if leb (i * step) j && ltb j ((i + n) * step) then 1 else 0)
unfolding heads
visits-heads j zero i step = ground arith
visits-heads j (suc n) i step = grind (arith, visits-heads j n (i + 1) step)

cut_lem :
    (j div step len : ℕ) (l : List Slice)
    → (div - 1) * step ≤ len
    → cut div step len ≡ some l
    → visits j l ≡ (if ltb j len then 1 else 0)
unfolding cut
cut_lem j div step len l h e =
    let last : Slice = record { first = (div - 1) * step; last = len } in
    let all : heads (div - 1) 0 step ++ last ∷ [] ≡ l = ground arith in
    subst (λ r. visits j r ≡ (if ltb j len then 1 else 0)) all
      (visits-append j (heads (div - 1) 0 step) (last ∷ [])
        ∙ ground (arith, visits-heads j (div - 1) 0 step))

-- Each position of the range is in just one of the slices, and no other position is in any.
pub foreach_slices_lem :
    (j div len : ℕ) (l : List Slice)
    → foreach_slices div len ≡ some l
    → visits j l ≡ (if ltb j len then 1 else 0)
unfolding foreach_slices
foreach_slices_lem j div len l e = elim (Bool-cases (div == 0)) [
  | inl z ↦ absurd (ground arith)
  | inr nz ↦ elim (Bool-cases (len / div == 0)) [
    | inl short ↦ cut_lem j len 1 len l (omega arith) (ground arith)
    | inr long ↦ cut_lem j div (len / div) len l (grind arith) (ground arith)
  ]
]

pub even_slices_lem :
    (j threads len : ℕ) (l : List Slice)
    → even_slices threads len ≡ some l
    → visits j l ≡ (if ltb j len then 1 else 0)
unfolding even_slices
even_slices_lem j threads len l e = elim (Bool-cases (threads == 0)) [
  | inl z ↦ absurd (ground arith)
  | inr nz ↦ cut_lem j threads (len / threads) len l (grind arith) (ground arith)
]
