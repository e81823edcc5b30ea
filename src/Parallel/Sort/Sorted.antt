-- ===== src/Parallel/Sort/Sorted.antt =====
-- include/amino/parallel_sort.h: the rounds of merges end, and what they leave is sorted.
use amino.Prelude.{
  ℕ, zero, suc, ◌+◌, ◌-◌, ◌*◌, ◌/◌, ◌≡◌, ◌≤◌, ◌<◌, refl, sym, ◌∙◌, ap, subst, List, [], ◌∷◌, ◌++◌,
  length, arith, times, times-append, some, ltb, inl, inr, Bool-cases,
}
use amino.Parallel.Sort.{
  take, drop, part, steps_of, sort_parts, merge_round, merge_loop, remove_middles, push_steps,
  parallel_sort,
}
use amino.Parallel.Sort.Runs.{
  IsSorted, Fits, Runs, take-append, drop-append, Sorts, Merges, sort_parts-Runs, sort_parts-times,
}

append_nil : (xs : List ℕ) → xs ++ [] ≡ xs
append_nil [] = refl
append_nil (x ∷ xs) = ap (λ z. x ∷ z) (append_nil xs)

module _ (merge : List ℕ → List ℕ → List ℕ) (ok : Merges merge) where
  -- One round on an array of sorted runs: longer runs of the same elements.
  merge_round_lem :
      (a : ℕ) (steps xs : List ℕ)
      → Runs a steps xs
      → Runs a (remove_middles steps) (merge_round merge a steps xs)
        × ((x : ℕ) → times x (merge_round merge a steps xs) ≡ times x xs)
  unfolding merge_round remove_middles
  merge_round_lem a [] xs r = (r, λ x. refl)
  merge_round_lem a (m ∷ []) xs r = (r, λ x. refl)
  merge_round_lem a (m ∷ e ∷ steps) xs (left, tail, f, lf, ls, (right, tail', g, rg, rs, more)) =
      let shape : xs ≡ left ++ tail = f in
      let lt : take (m - a) xs ≡ left =
        ap (take (m - a)) shape ∙ take-append (m - a) left tail (omega arith) in
      let ld : drop (m - a) xs ≡ tail =
        ap (drop (m - a)) shape ∙ drop-append (m - a) left tail (omega arith) in
      let rt : take (e - m) tail ≡ right =
        ap (take (e - m)) g ∙ take-append (e - m) right tail' (omega arith) in
      let rd : drop (e - m) tail ≡ tail' =
        ap (drop (e - m)) g ∙ drop-append (e - m) right tail' (omega arith) in
      let rest = merge_round_lem e steps tail' more in
      rw (ld, lt, rt, rd)
        (
          (
            merge left right,
            merge_round merge e steps tail',
            refl,
            omega (arith, ok.same_length left right ls rs),
            ok.sorted left right ls rs,
            rest.0,
          ),
          λ x.
              times-append x (merge left right) (merge_round merge e steps tail')
              ∙ omega (
                arith,
                ok.keeps x left right ls rs,
                rest.1 x,
                times-append x left tail,
                times-append x right tail',
                ap (times x) shape,
                ap (times x) g,
              ),
        )

  length-remove_middles : (steps : List ℕ) → length (remove_middles steps) ≤ length steps
  unfolding remove_middles
  length-remove_middles [] = omega arith
  length-remove_middles (m ∷ []) = omega arith
  length-remove_middles (m ∷ e ∷ steps) = omega (arith, length-remove_middles steps)

  fewer_steps : (steps : List ℕ) → 1 < length steps → length (remove_middles steps) < length steps
  unfolding remove_middles
  fewer_steps [] h = absurd (omega arith)
  fewer_steps (m ∷ []) h = absurd (omega arith)
  fewer_steps (m ∷ e ∷ steps) h = omega (arith, length-remove_middles steps)

  one_run-IsSorted : (a : ℕ) (steps xs : List ℕ) → length steps ≤ 1 → Runs a steps xs → IsSorted xs
  one_run-IsSorted a [] xs h r = subst IsSorted (sym r) tt
  one_run-IsSorted a (b ∷ []) xs h (run, tail, f, lf, s, none_left) =
      subst IsSorted (sym (f ∙ ap (λ z. run ++ z) none_left ∙ append_nil run)) s
  one_run-IsSorted a (b ∷ c ∷ steps) xs h r = absurd (omega arith)

  merge_loop_lem :
      (n : ℕ) (steps xs : List ℕ)
      → length steps < n
      → Runs 0 steps xs
      → (ys : List ℕ) × (merge_loop merge n steps xs ≡ some ys)
        × IsSorted ys
        × ((x : ℕ) → times x ys ≡ times x xs)
  unfolding merge_loop
  merge_loop_lem zero steps xs h r = absurd (omega arith)
  merge_loop_lem (suc n) steps xs h r = elim (Bool-cases (ltb 1 (length steps))) [
    | inl more ↦
        let round = merge_round_lem 0 steps xs r in
        let below : length (remove_middles steps) < n =
          ground (arith, fewer_steps steps (ground (arith, more))) in
        let (ys, e, s, same) =
          merge_loop_lem n (remove_middles steps) (merge_round merge 0 steps xs) below round.0 in
        (ys, rw more e, s, λ x. same x ∙ round.1 x)
    | inr last ↦ (xs, rw last refl, one_run-IsSorted 0 steps xs (ground (arith, last)) r, λ x. refl)
  ]

Fits-push_steps :
    (n a pos step len : ℕ)
    → a ≤ pos
    → len ≡ (pos - a) + n * step
    → Fits a (push_steps (suc n) pos step) len
unfolding push_steps
Fits-push_steps zero a pos step len h e = (h, omega arith, omega arith)
Fits-push_steps (suc n) a pos step len h e = (
  h,
  grind arith,
  Fits-push_steps n pos (pos + step) step (len - (pos - a)) (omega arith) (grind arith),
)

-- There is at least one part, and the parts fit into the range.
part_lem :
    (threads len : ℕ)
    → 0 < threads
    → 0 < len
    → (div : ℕ) × (step : ℕ) × (part threads len ≡ some (div, step))
      × (1 ≤ div)
      × (step * div ≤ len)
unfolding part
part_lem threads len t l = elim (Bool-cases (ltb (len / (64 * threads)) 32)) [
  | inl short ↦ elim (Bool-cases (ltb len 32)) [
    | inl tiny ↦ (len / len, len, grind arith, grind arith, grind arith)
    | inr more ↦ (len / 32, 32, ground arith, grind arith, grind arith)
  ]
  | inr long ↦ (64 * threads, len / (64 * threads), ground arith, omega arith, grind arith)
]

Fits-steps_of :
    (len div step : ℕ) → 1 ≤ div → step * div ≤ len → Fits 0 (steps_of len (div, step)) len
unfolding steps_of
Fits-steps_of len zero step h b = absurd (omega arith)
Fits-steps_of len (suc n) step h b =
    Fits-push_steps n 0 (step + (len - step * suc n)) step len (omega arith) (grind arith)

-- With at least one thread and one element, `parallel_sort` ends, after finitely many rounds of merges, and
-- leaves a sorted array of the same elements, each as often as before. The sort and the merge that it is
-- given sort a range, and merge two neighbouring sorted ranges, as std::sort and std::inplace_merge do.
pub parallel_sort_lem :
    (sort : List ℕ → List ℕ) (merge : List ℕ → List ℕ → List ℕ) (threads : ℕ) (xs : List ℕ)
    → Sorts sort
    → Merges merge
    → 0 < threads
    → 0 < length xs
    → (ys : List ℕ) × (parallel_sort sort merge threads xs ≡ some ys)
      × IsSorted ys
      × ((x : ℕ) → times x ys ≡ times x xs)
unfolding parallel_sort
parallel_sort_lem sort merge threads xs sorts merges t l =
    let (div, step, e, some_part, small) = part_lem threads (length xs) t l in
    let steps = steps_of (length xs) (div, step) in
    let fits = Fits-steps_of (length xs) div step some_part small in
    let (ys, f, s, same) =
      merge_loop_lem merge merges (length steps + 1) steps (sort_parts sort 0 steps xs)
        (omega arith) (sort_parts-Runs sort sorts 0 steps xs fits) in
    (ys, rw (e, parallel_sort) f, s, λ x. same x ∙ sort_parts-times sort sorts x 0 steps xs)
