-- ===== src/Parallel/Sort/Runs.antt =====
-- include/amino/parallel_sort.h: the array between two phases is cut into sorted runs.
use amino.Prelude.{
  ℕ, zero, suc, ◌+◌, ◌-◌, ◌≡◌, ◌≤◌, refl, sym, ◌∙◌, ap, subst, List, [], ◌∷◌, ◌++◌, length, arith,
  All, times, times-append,
}
use amino.Parallel.Sort.{take, drop, sort_parts}

abbrev pub IsSorted : List ℕ → Type 0
IsSorted [] = Unit
IsSorted (x ∷ xs) = All (λ y. x ≤ y) xs × IsSorted xs

-- `steps` cut `n` elements from position `a` on into consecutive parts.
abbrev pub Fits : ℕ → List ℕ → ℕ → Type 0
Fits a [] n = n ≡ 0
Fits a (b ∷ steps) n = (a ≤ b) × (b ≤ a + n) × Fits b steps (n - (b - a))

-- The parts of `xs` between the positions of `steps` are sorted.
abbrev pub Runs : ℕ → List ℕ → List ℕ → Type 0
Runs a [] xs = xs ≡ []
Runs a (b ∷ steps) xs =
    (run : List ℕ) × (tail : List ℕ) × (xs ≡ run ++ tail)
    × (a + length run ≡ b)
    × IsSorted run
    × Runs b steps tail

pub take-append : (n : ℕ) (l r : List ℕ) → n ≡ length l → take n (l ++ r) ≡ l
unfolding take
take-append zero [] r e = refl
take-append zero (x ∷ l) r e = absurd (omega arith)
take-append (suc n) [] r e = absurd (omega arith)
take-append (suc n) (x ∷ l) r e = ap (λ z. x ∷ z) (take-append n l r (omega arith))

pub drop-append : (n : ℕ) (l r : List ℕ) → n ≡ length l → drop n (l ++ r) ≡ r
unfolding drop
drop-append zero [] r e = refl
drop-append zero (x ∷ l) r e = absurd (omega arith)
drop-append (suc n) [] r e = absurd (omega arith)
drop-append (suc n) (x ∷ l) r e = drop-append n l r (omega arith)

pub length-take : (n : ℕ) (xs : List ℕ) → n ≤ length xs → length (take n xs) ≡ n
unfolding take
length-take zero xs h = refl
length-take (suc n) [] h = absurd (omega arith)
length-take (suc n) (x ∷ xs) h = omega (arith, length-take n xs (omega arith))

pub length-drop : (n : ℕ) (xs : List ℕ) → length (drop n xs) ≡ length xs - n
unfolding drop
length-drop zero xs = omega arith
length-drop (suc n) [] = omega arith
length-drop (suc n) (x ∷ xs) = omega (arith, length-drop n xs)

pub times-take-drop :
    (a n : ℕ) (xs : List ℕ) → times a (take n xs) + times a (drop n xs) ≡ times a xs
unfolding take drop
times-take-drop a zero xs = omega arith
times-take-drop a (suc n) [] = omega arith
times-take-drop a (suc n) (x ∷ xs) = omega (arith, times-take-drop a n xs)

-- What the sort of the standard library does: a sorted range of the same elements.
pub record Sorts (sort : List ℕ → List ℕ) : Type 0 where
  pub sorted : (xs : List ℕ) → IsSorted (sort xs)
  pub keeps : (a : ℕ) (xs : List ℕ) → times a (sort xs) ≡ times a xs
  pub same_length : (xs : List ℕ) → length (sort xs) ≡ length xs

-- What its merge of two neighbouring sorted ranges does.
pub record Merges (merge : List ℕ → List ℕ → List ℕ) : Type 0 where
  pub sorted : (l r : List ℕ) → IsSorted l → IsSorted r → IsSorted (merge l r)
  pub keeps :
      (a : ℕ) (l r : List ℕ) → IsSorted l → IsSorted r → times a (merge l r) ≡ times a l + times a r
  pub same_length :
      (l r : List ℕ) → IsSorted l → IsSorted r → length (merge l r) ≡ length l + length r

module _ (sort : List ℕ → List ℕ) (ok : Sorts sort) where
  pub sort_parts-Runs :
      (a : ℕ) (steps xs : List ℕ)
      → Fits a steps (length xs)
      → Runs a steps (sort_parts sort a steps xs)
  unfolding sort_parts
  sort_parts-Runs a [] [] f = refl
  sort_parts-Runs a [] (x ∷ xs) f = absurd (omega arith)
  sort_parts-Runs a (b ∷ steps) xs f =
      let rest : Fits b steps (length (drop (b - a) xs)) =
        subst (Fits b steps) (sym (length-drop (b - a) xs)) (f.2) in
      (
        sort (take (b - a) xs),
        sort_parts sort b steps (drop (b - a) xs),
        refl,
        omega (
          arith,
          ok.same_length (take (b - a) xs),
          length-take (b - a) xs (omega arith),
          f.0,
          f.1,
        ),
        ok.sorted (take (b - a) xs),
        sort_parts-Runs b steps (drop (b - a) xs) rest,
      )

  pub sort_parts-times :
      (x a : ℕ) (steps xs : List ℕ) → times x (sort_parts sort a steps xs) ≡ times x xs
  unfolding sort_parts
  sort_parts-times x a [] xs = refl
  sort_parts-times x a (b ∷ steps) xs =
      times-append x (sort (take (b - a) xs)) (sort_parts sort b steps (drop (b - a) xs))
      ∙ omega (
        arith,
        ok.keeps x (take (b - a) xs),
        sort_parts-times x b steps (drop (b - a) xs),
        times-take-drop x (b - a) xs,
      )
