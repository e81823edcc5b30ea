-- ===== src/Parallel/Transform.antt =====
-- include/amino/transform.h: both `transform` functions, and the task of each slice.
use mathlib.Core.List.{Perm}
use amino.Prelude.{
  ℕ, zero, suc, ◌+◌, ◌-◌, ◌*◌, ◌/◌, ap, ◌≡◌, ◌<◌, refl, List, [], ◌∷◌, ◌++◌, arith, Option, none,
  some, ltb, leb, ◌==◌, if◌then◌else◌, update, ◌∙◌, sym, Bool-cases, inl, inr, subst, ◌&&◌,
}
use amino.Parallel.Slices.{Slice, even_slices, even_slices_lem, heads, cut, visits, Perm-visits}

abbrev pub multi_num : ℕ
multi_num = 3

-- A short range is one slice, which the caller works off itself.
unfoldable pub transform_slices : ℕ → ℕ → Option (List Slice)
transform_slices threads len =
    if ltb len (multi_num * threads)
    then some (record { first = 0; last = len } ∷ [])
    else even_slices threads len

-- `std::transform` from position `i` on, where `value i` is the result of the operation there, and
-- `result` is where the output begins.
module _ {B : Type 0} (value : ℕ → B) (result : ℕ) where
  unfoldable pub write_loop : ℕ → ℕ → (ℕ → B) → ℕ → B
  write_loop zero i out = out
  write_loop (suc n) i out = write_loop n (i + 1) (update out (result + i) (value i))

  unfoldable pub run_slice : Slice → (ℕ → B) → ℕ → B
  unfolding write_loop
  run_slice s out = write_loop (s.last - s.first) s.first out

  unfoldable pub run_slices : List Slice → (ℕ → B) → ℕ → B
  unfolding run_slice
  run_slices [] out = out
  run_slices (s ∷ order) out = run_slices order (run_slice s out)

  write_loop_lem :
      (n i j : ℕ) (out : ℕ → B)
      → write_loop n i out (result + j) ≡ (
          if leb i j
          then (if ltb j (i + n) then value j else out (result + j))
          else out (result + j))
  unfolding write_loop
  write_loop_lem zero i j out = ground arith
  write_loop_lem (suc n) i j out =
      ground (arith, write_loop_lem n (i + 1) j (update out (result + i) (value i)))

  write_loop_before : (n i q : ℕ) (out : ℕ → B) → q < result → write_loop n i out q ≡ out q
  unfolding write_loop
  write_loop_before zero i q out h = refl
  write_loop_before (suc n) i q out h =
      ground (arith, write_loop_before n (i + 1) q (update out (result + i) (value i)))

  run_slices_lem :
      (j : ℕ) (order : List Slice) (out : ℕ → B)
      → run_slices order out (result + j)
        ≡ (if visits j order == 0 then out (result + j) else value j)
  unfolding run_slices
  run_slices_lem j [] out = refl
  run_slices_lem j (s ∷ order) out = ground (
    arith,
    run_slices_lem j order (run_slice s out),
    write_loop_lem (s.last - s.first) s.first j out,
  )

  run_slices_before :
      (q : ℕ) (order : List Slice) (out : ℕ → B) → q < result → run_slices order out q ≡ out q
  unfolding run_slices
  run_slices_before q [] out h = refl
  run_slices_before q (s ∷ order) out h =
      run_slices_before q order (run_slice s out) h
      ∙ write_loop_before (s.last - s.first) s.first q out h

-- What the two functions write at a position: of one input sequence, and of two.
pub run_unary :
    {A B : Type 0} (op : A → B) (input : ℕ → A) (result : ℕ) → List Slice → (ℕ → B) → ℕ → B
unfolding run_slices
run_unary op input result = run_slices (λ i. op (input i)) result

pub run_binary :
    {A B D : Type 0} (op : A → B → D) (input1 : ℕ → A) (input2 : ℕ → B) (result : ℕ)
    → List Slice
    → (ℕ → D)
    → ℕ
    → D
unfolding run_slices
run_binary op input1 input2 result = run_slices (λ i. op (input1 i) (input2 i)) result

transform_slices_lem :
    (threads len j : ℕ) (l : List Slice)
    → transform_slices threads len ≡ some l
    → visits j l ≡ (if ltb j len then 1 else 0)
unfolding transform_slices
transform_slices_lem threads len j l e = elim (Bool-cases (ltb len (multi_num * threads))) [
  | inl short ↦
      let whole : record { first = 0; last = len } ∷ [] ≡ l = ground arith in
      subst (λ r. visits j r ≡ (if ltb j len then 1 else 0)) whole (ground arith)
  | inr long ↦ even_slices_lem j threads len l (ground arith)
]

-- The output at any position `q`, for an order in which the tasks run.
written :
    {B : Type 0} (value out : ℕ → B) (result threads len q : ℕ) (l order : List Slice)
    → transform_slices threads len ≡ some l
    → Perm l order
    → run_slices value result order out q
      ≡ (if leb result q && ltb q (result + len) then value (q - result) else out q)
written value out result threads len q l order e p = elim (Bool-cases (leb result q)) [
  | inl inside_or_after ↦
      let place : result + (q - result) ≡ q = ground arith in
      let met =
        sym (Perm-visits (q - result) l order p)
        ∙ transform_slices_lem threads len (q - result) l e in
      subst
        (λ z.
          run_slices value result order out z
          ≡ (if leb result q && ltb q (result + len) then value (q - result) else out z))
        place (run_slices_lem value result (q - result) order out ∙ ground (arith, met))
  | inr before ↦ run_slices_before value result q order out (ground arith) ∙ ground arith
]

-- In whatever order the executor runs the tasks of the `transform` of one sequence of `len` elements,
-- the positions from `result` on hold the images of the elements, in their places, and every other
-- position of the output is as before.
pub transform_unary :
    {A B : Type 0} (op : A → B) (input : ℕ → A) (out : ℕ → B) (result threads len q : ℕ)
    (l order : List Slice)
    → transform_slices threads len ≡ some l
    → Perm l order
    → run_unary op input result order out q
      ≡ (if leb result q && ltb q (result + len) then op (input (q - result)) else out q)
unfolding run_unary
transform_unary op input out result threads len q l order e p =
    written (λ i. op (input i)) out result threads len q l order e p

-- In whatever order the executor runs the tasks of the `transform` of two sequences of `len` elements, the
-- positions from `result` on hold the combinations of the elements at the same place, and every other
-- position of the output is as before.
pub transform_binary :
    {A B D : Type 0} (op : A → B → D) (input1 : ℕ → A) (input2 : ℕ → B) (out : ℕ → D)
    (result threads len q : ℕ) (l order : List Slice)
    → transform_slices threads len ≡ some l
    → Perm l order
    → run_binary op input1 input2 result order out q ≡ (
        if leb result q && ltb q (result + len)
        then op (input1 (q - result)) (input2 (q - result))
        else out q)
unfolding run_binary
transform_binary op input1 input2 out result threads len q l order e p =
    written (λ i. op (input1 i) (input2 i)) out result threads len q l order e p

-- `getResultLast` of the task of a slice: where `std::transform` stopped to write.
pub result_last : ℕ → Slice → ℕ
result_last result s = result + s.first + (s.last - s.first)

-- The iterator that `transform` returns, that of the last slice.
pub returned : ℕ → List Slice → Option ℕ
unfolding result_last
returned result [] = none
returned result (s ∷ []) = some (result_last result s)
returned result (s ∷ t ∷ l) = returned result (t ∷ l)

returned_last :
    (result n i step : ℕ) (s : Slice)
    → returned result (heads n i step ++ s ∷ []) ≡ some (result_last result s)
unfolding returned heads
returned_last result zero i step s = refl
returned_last result (suc zero) i step s = refl
returned_last result (suc (suc n)) i step s = returned_last result (suc n) (i + 1) step s

-- With at least one thread, `transform` always has its slices, and it returns the end of the output.
pub transform_returns :
    (result threads len : ℕ)
    → 0 < threads
    → (l : List Slice) × (transform_slices threads len ≡ some l)
      × (returned result l ≡ some (result + len))
unfolding transform_slices even_slices cut returned result_last
transform_returns result threads len h = elim (Bool-cases (ltb len (multi_num * threads))) [
  | inl short ↦ rw short (_, refl, ap some (omega arith))
  | inr long ↦ rw long (
    heads (threads - 1) 0 (len / threads)
        ++ record { first = (threads - 1) * (len / threads); last = len } ∷ [],
    ground arith,
    returned_last result (threads - 1) 0 (len / threads) _ ∙ ap some (grind arith),
  )
]
