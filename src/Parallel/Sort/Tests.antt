-- ===== src/Parallel/Sort/Tests.antt =====
-- `parallel_sort` with a sort by insertion, on a hundred elements in the wrong order.
use amino.Prelude.{
  ℕ, zero, suc, ◌≡◌, ◌≤◌, refl, ◌∙◌, List, [], ◌∷◌, ◌++◌, length, arith, All, times, times-append,
  length-append, some, leb, if◌then◌else◌, Bool-cases, inl, inr,
}
use amino.Parallel.Sort.{parallel_sort}
use amino.Parallel.Sort.Runs.{IsSorted, Sorts, Merges}
use amino.Parallel.Sort.Sorted.{parallel_sort_lem}

abbrev insert : ℕ → List ℕ → List ℕ
insert x [] = x ∷ []
insert x (y ∷ ys) = if leb x y then x ∷ y ∷ ys else y ∷ insert x ys

abbrev by_insertion : List ℕ → List ℕ
by_insertion [] = []
by_insertion (x ∷ xs) = insert x (by_insertion xs)

times-insert : (a x : ℕ) (ys : List ℕ) → times a (insert x ys) ≡ times a (x ∷ ys)
times-insert a x [] = refl
times-insert a x (y ∷ ys) = ground (arith, times-insert a x ys)

length-insert : (x : ℕ) (ys : List ℕ) → length (insert x ys) ≡ suc (length ys)
length-insert x [] = refl
length-insert x (y ∷ ys) = ground (arith, length-insert x ys)

All-le : (x y : ℕ) (ys : List ℕ) → x ≤ y → All (λ z. y ≤ z) ys → All (λ z. x ≤ z) ys
All-le x y [] h a = tt
All-le x y (z ∷ ys) h a = (omega (arith, a.0), All-le x y ys h a.1)

All-insert : (x y : ℕ) (ys : List ℕ) → y ≤ x → All (λ z. y ≤ z) ys → All (λ z. y ≤ z) (insert x ys)
All-insert x y [] h a = (h, tt)
All-insert x y (z ∷ ys) h a = elim (Bool-cases (leb x z)) [
  | inl before ↦ rw before (h, a)
  | inr after ↦ rw after (a.0, All-insert x y ys h a.1)
]

insert-IsSorted : (x : ℕ) (ys : List ℕ) → IsSorted ys → IsSorted (insert x ys)
insert-IsSorted x [] s = (tt, tt)
insert-IsSorted x (y ∷ ys) s = elim (Bool-cases (leb x y)) [
  | inl before ↦
      let le : x ≤ y = ground (arith, before) in rw before ((le, All-le x y ys le s.0), s)
  | inr after ↦ rw after (All-insert x y ys (ground (arith, after)) s.0, insert-IsSorted x ys s.1)
]

by_insertion-IsSorted : (xs : List ℕ) → IsSorted (by_insertion xs)
by_insertion-IsSorted [] = tt
by_insertion-IsSorted (x ∷ xs) = insert-IsSorted x (by_insertion xs) (by_insertion-IsSorted xs)

times-by_insertion : (a : ℕ) (xs : List ℕ) → times a (by_insertion xs) ≡ times a xs
times-by_insertion a [] = refl
times-by_insertion a (x ∷ xs) =
    times-insert a x (by_insertion xs) ∙ omega (arith, times-by_insertion a xs)

length-by_insertion : (xs : List ℕ) → length (by_insertion xs) ≡ length xs
length-by_insertion [] = refl
length-by_insertion (x ∷ xs) =
    length-insert x (by_insertion xs) ∙ omega (arith, length-by_insertion xs)

by_insertion-Sorts : Sorts by_insertion
by_insertion-Sorts = record {
  sorted = by_insertion-IsSorted;
  keeps = times-by_insertion;
  same_length = length-by_insertion;
}

abbrev merge_both : List ℕ → List ℕ → List ℕ
merge_both l r = by_insertion (l ++ r)

merge_both-Merges : Merges merge_both
merge_both-Merges = record {
  sorted = λ l r p q. by_insertion-IsSorted (l ++ r);
  keeps = λ a l r p q. times-by_insertion a (l ++ r) ∙ times-append a l r;
  same_length = λ l r p q. length-by_insertion (l ++ r) ∙ length-append l r;
}

abbrev down_from : ℕ → List ℕ
down_from zero = []
down_from (suc n) = n ∷ down_from n

parallel_sort_lem_example :
    (ys : List ℕ) × (parallel_sort by_insertion merge_both 1 (down_from 100) ≡ some ys)
    × IsSorted ys
    × ((x : ℕ) → times x ys ≡ times x (down_from 100))
parallel_sort_lem_example =
    parallel_sort_lem by_insertion merge_both 1 (down_from 100) by_insertion-Sorts merge_both-Merges
      (omega arith) (omega arith)
