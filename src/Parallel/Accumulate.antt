-- ===== src/Parallel/Accumulate.antt =====
-- include/amino/accumulate.h: both `accumulate` functions, and the task of each slice. The values of
-- the range are given by position. `none` is undefined behaviour: the first element of an empty
-- range, or a division by zero.
use amino.Prelude.{
  ℕ, zero, suc, ◌+◌, ◌-◌, ◌*◌, ◌/◌, ◌≡◌, ◌≤◌, ◌<◌, refl, sym, ◌∙◌, ap, List, [], ◌∷◌, ◌++◌, map,
  arith, Option, none, some, ltb, ◌==◌, if◌then◌else◌, Bool-cases, inl, inr, true, false,
}
use amino.Parallel.Slices.{Slice, heads, cut, even_slices}

abbrev pub multi_num : ℕ
multi_num = 3

module _ {T : Type 0} (func : T → T → T) where
  -- `std::accumulate` over the `n` values from position `i` on.
  unfoldable pub fold_loop : (ℕ → T) → ℕ → ℕ → T → T
  fold_loop value zero i acc = acc
  fold_loop value (suc n) i acc = fold_loop value n (i + 1) (func acc (value i))

  -- `std::accumulate(first + 1, last, *first, func)`, as in `run` of both tasks.
  unfoldable pub fold_slice : (ℕ → T) → Slice → T
  fold_slice value s = fold_loop value (s.last - s.first - 1) (s.first + 1) (value s.first)

  -- The same over the array of results.
  unfoldable pub fold_array : T → List T → T
  fold_array acc [] = acc
  fold_array acc (r ∷ rs) = fold_array (func acc r) rs

  unfoldable pub fold_results : List T → Option T
  fold_results [] = none
  fold_results (r ∷ rs) = some (fold_array r rs)

-- `std::accumulate(first + 1, last, *first)` of a range of `len` values.
unfoldable pub fold_range : {T : Type 0} → (T → T → T) → (ℕ → T) → ℕ → Option T
fold_range func value len =
    if len == 0 then none else some (fold_slice func value (record { first = 0; last = len }))

-- One task for each slice; `result[i]` is that of slice `i`, whenever its task ran.
unfoldable pub fold_tasks : {T : Type 0} → (T → T → T) → (ℕ → T) → Option (List Slice) → Option T
fold_tasks func value none = none
fold_tasks func value (some l) = fold_results func (map (fold_slice func value) l)

-- `accumulate` with the operator `+`, which is `plus`.
pub accumulate : {T : Type 0} → (T → T → T) → (ℕ → T) → ℕ → ℕ → Option T
accumulate plus value threads len =
    if ltb len (multi_num * threads)
    then fold_range plus value len
    else fold_tasks plus value (even_slices threads len)

-- `accumulate` with a function. On a short range the code leaves `func` out of its call of
-- `std::accumulate`, which then adds.
pub accumulate_func : {T : Type 0} → (T → T → T) → (T → T → T) → (ℕ → T) → ℕ → ℕ → Option T
accumulate_func plus func value threads len =
    if ltb len (multi_num * threads)
    then fold_range plus value len
    else fold_tasks func value (even_slices threads len)

module _ {T : Type 0} (func : T → T → T)
    (assoc : (a b c : T) → func (func a b) c ≡ func a (func b c)) (value : ℕ → T) where
  fold_loop-add :
      (n m i : ℕ) (acc : T)
      → fold_loop func value (n + m) i acc
        ≡ fold_loop func value m (i + n) (fold_loop func value n i acc)
  unfolding fold_loop
  fold_loop-add zero m i acc = ground arith
  fold_loop-add (suc n) m i acc =
      let more : suc n + m ≡ suc (n + m) = omega arith in
      let on : i + suc n ≡ i + 1 + n = omega arith in
      rw (more, on) (fold_loop-add n m (i + 1) (func acc (value i)))

  fold_loop-func :
      (n i : ℕ) (a b : T)
      → fold_loop func value n i (func a b) ≡ func a (fold_loop func value n i b)
  unfolding fold_loop
  fold_loop-func zero i a b = refl
  fold_loop-func (suc n) i a b =
      ap (fold_loop func value n (i + 1)) (assoc a b (value i))
      ∙ fold_loop-func n (i + 1) a (func b (value i))

  -- A slice that is not empty, added to what comes before it.
  func-slice :
      (acc : T) (s : Slice)
      → s.first < s.last
      → func acc (fold_slice func value s) ≡ fold_loop func value (s.last - s.first) s.first acc
  unfolding fold_slice fold_loop
  func-slice acc s h =
      let more : s.last - s.first ≡ suc (s.last - s.first - 1) = omega arith in
      sym (fold_loop-func (s.last - s.first - 1) (s.first + 1) acc (value s.first))
      ∙ ap (λ n. fold_loop func value n s.first acc) (sym more)

  -- The results of the slices from round `i` on, added up, are the values from `i * step` on, added up.
  fold_array-heads :
      (n i step : ℕ) (acc : T) (s : Slice)
      → 0 < step
      → s.first ≡ (i + n) * step
      → s.first < s.last
      → fold_array func acc (map (fold_slice func value) (heads n i step ++ s ∷ []))
        ≡ fold_loop func value (s.last - i * step) (i * step) acc
  unfolding fold_array heads
  fold_array-heads zero i step acc s pos e h =
      let same : s.first ≡ i * step = grind arith in func-slice acc s h ∙ rw same refl
  fold_array-heads (suc n) i step acc s pos e h =
      let head : Slice = record { first = i * step; last = (i + 1) * step } in
      let width : (i + 1) * step - i * step ≡ step = grind arith in
      let rest =
        fold_array-heads n (i + 1) step (func acc (fold_slice func value head)) s pos (grind arith)
          h in
      let split : s.last - i * step ≡ step + (s.last - (i + 1) * step) = grind arith in
      let next : i * step + step ≡ (i + 1) * step = grind arith in
      let m = s.last - (i + 1) * step in
      let before = fold_loop func value step (i * step) acc in
      rest
      ∙ ap (fold_loop func value m ((i + 1) * step)) (
          func-slice acc head (grind arith) ∙ ap (λ w. fold_loop func value w (i * step) acc) width)
      ∙ ap (λ z. fold_loop func value m z before) (sym next)
      ∙ sym (fold_loop-add step m (i * step) acc)
      ∙ ap (λ w. fold_loop func value w (i * step) acc) (sym split)

  fold_slice-whole :
      (a b n : ℕ)
      → a ≡ 0
      → b - 1 ≡ n
      → fold_slice func value (record { first = a; last = b }) ≡ fold_loop func value n 1 (value 0)
  unfolding fold_slice
  fold_slice-whole a b n e f = let same : b - 0 - 1 ≡ n = omega arith in rw (e, same) refl

  -- All slices together.
  fold_results-heads :
      (n step : ℕ) (s : Slice)
      → 0 < step
      → s.first ≡ n * step
      → s.first < s.last
      → fold_results func (map (fold_slice func value) (heads n 0 step ++ s ∷ []))
        ≡ some (fold_loop func value (s.last - 1) 1 (value 0))
  unfolding fold_results fold_array heads
  fold_results-heads zero step s pos e h =
      let first : s.first ≡ 0 = omega arith in
      ap some (fold_slice-whole s.first s.last (s.last - 1) first refl)
  fold_results-heads (suc n) step s pos e h =
      let zero_step : 0 * step ≡ 0 = omega arith in
      let one_step : 1 * step ≡ step = omega arith in
      let back : 1 + (step - 1) ≡ step = omega arith in
      let width : step - 1 + (s.last - step) ≡ s.last - 1 = grind arith in
      let rest =
        fold_array-heads n 1 step (fold_loop func value (step - 1) 1 (value 0)) s pos (grind arith)
          h in
      let all = fold_loop-add (step - 1) (s.last - step) 1 (value 0) in
      let first = fold_slice-whole (0 * step) ((0 + 1) * step) (step - 1) zero_step (omega arith) in
      ap (λ z. some (fold_array func z (map (fold_slice func value) (heads n 1 step ++ s ∷ []))))
        first
      ∙ ap some ((rw one_step at rest) ∙ sym (rw (width, back) at all))

  even_slices-fold :
      (threads len : ℕ)
      → multi_num * threads ≤ len
      → 0 < threads
      → fold_tasks func value (even_slices threads len) ≡ fold_range func value len
  unfolding fold_tasks fold_range fold_slice even_slices cut
  even_slices-fold threads len big some_thread =
      let t : (threads == 0) ≡ false = ground arith in
      let l : (len == 0) ≡ false = ground arith in
      let whole =
        fold_results-heads (threads - 1) (len / threads)
          (record { first = (threads - 1) * (len / threads); last = len }) (grind arith) refl
          (grind arith) in
      rw (t, l) (whole ∙ ap (λ w. some (fold_loop func value w 1 (value 0))) (omega arith))

no_slices : (threads len : ℕ) → (threads == 0) ≡ true → even_slices threads len ≡ none
unfolding even_slices
no_slices threads len z = rw z refl

-- For an associative `plus`, and however many threads share the work, `accumulate` is the sum of the
-- whole range in order, as `std::accumulate` computes it; with no thread it divides by zero.
pub accumulate_sum :
    {T : Type 0} (plus : T → T → T) (value : ℕ → T) (threads len : ℕ)
    → ((a b c : T) → plus (plus a b) c ≡ plus a (plus b c))
    → accumulate plus value threads len ≡ (if threads == 0 then none else fold_range plus value len)
unfolding accumulate fold_tasks
accumulate_sum plus value threads len assoc = elim (Bool-cases (threads == 0)) [
  | inl z ↦
      let long : ltb len (multi_num * threads) ≡ false = ground arith in
      rw (z, long) (ap (fold_tasks plus value) (no_slices threads len z))
  | inr nz ↦ elim (Bool-cases (ltb len (multi_num * threads))) [
    | inl short ↦ rw (nz, short) refl
    | inr long ↦
        rw (nz, long) (even_slices-fold plus assoc value threads len (ground arith) (ground arith))
  ]
]

-- For an associative `func` and some thread: on at least three elements a thread `accumulate` with a
-- function combines the whole range in order by it, but on a shorter range it adds the elements
-- up and never calls it.
pub accumulate_func_lem :
    {T : Type 0} (plus func : T → T → T) (value : ℕ → T) (threads len : ℕ)
    → ((a b c : T) → func (func a b) c ≡ func a (func b c))
    → 0 < threads
    → accumulate_func plus func value threads len ≡ (
        if ltb len (multi_num * threads)
        then fold_range plus value len
        else fold_range func value len)
unfolding accumulate_func
accumulate_func_lem plus func value threads len assoc some_thread =
    elim (Bool-cases (ltb len (multi_num * threads))) [
      | inl short ↦ rw short refl
      | inr long ↦
          rw long (even_slices-fold func assoc value threads len (ground arith) some_thread)
    ]
