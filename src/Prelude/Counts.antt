-- ===== src/Prelude/Counts.antt =====
-- How often a number stands in a list.
use Prim.Native.Nat.{ℕ, ◌+◌, ◌≤◌}
use mathlib.Core.Path.{◌≡◌, refl}
use mathlib.Core.List.{List, [], ◌∷◌, ◌++◌}
use native.Mathlib.Omega.{arith}
use amino.Prelude.Tests.{◌==◌, if◌then◌else◌}
use amino.Prelude.Cells.{NotIn, IsNodup}

abbrev pub times : ℕ → List ℕ → ℕ
times a [] = 0
times a (x ∷ xs) = (if x == a then 1 else 0) + times a xs

pub times-append : (a : ℕ) (xs ys : List ℕ) → times a (xs ++ ys) ≡ times a xs + times a ys
times-append a [] ys = omega arith
times-append a (x ∷ xs) ys = omega (arith, times-append a xs ys)

NotIn-times : (a : ℕ) (xs : List ℕ) → NotIn a xs → times a xs ≡ 0
NotIn-times a [] n = refl
NotIn-times a (x ∷ xs) n = ground (arith, n.0, NotIn-times a xs n.1)

times-NotIn : (a : ℕ) (xs : List ℕ) → times a xs ≡ 0 → NotIn a xs
times-NotIn a [] h = tt
times-NotIn a (x ∷ xs) h = (λ e. ground arith, times-NotIn a xs (ground arith))

-- A list repeats nothing exactly if no number stands in it twice.
pub IsNodup-times : (a : ℕ) (xs : List ℕ) → IsNodup xs → times a xs ≤ 1
IsNodup-times a [] n = omega arith
IsNodup-times a (x ∷ xs) n = ground (arith, IsNodup-times a xs n.1, NotIn-times x xs n.0)

pub times-IsNodup : (xs : List ℕ) → ((a : ℕ) → times a xs ≤ 1) → IsNodup xs
times-IsNodup [] h = tt
times-IsNodup (x ∷ xs) h =
    (times-NotIn x xs (ground (arith, h x)), times-IsNodup xs (λ a. ground (arith, h a)))
