-- ===== src/Scheduler/Queue.antt =====
-- include/amino/deque.h as the scheduler sees it: a list with its left end first.
use amino.Prelude.{
  ℕ, ◌+◌, ◌≡◌, refl, Bool, true, false, List, [], ◌∷◌, ◌++◌, arith, Option, none, some, times,
  Option-cases, inl, inr, subst, ap, ◌∙◌, times-append,
}

unfoldable pub push_left : ℕ → List ℕ → List ℕ
push_left t q = t ∷ q

unfoldable pub pop_left : List ℕ → Option (ℕ × List ℕ)
pop_left [] = none
pop_left (t ∷ q) = some (t, q)

unfoldable pub pop_right : List ℕ → Option (List ℕ × ℕ)
pop_right [] = none
pop_right (t ∷ q) = elim (pop_right q) [ none ↦ some ([], t) | some (r, u) ↦ some (t ∷ r, u) ]

unfoldable pub is_empty : List ℕ → Bool
is_empty [] = true
is_empty (t ∷ q) = false

pub pop_right-none : (q : List ℕ) → pop_right q ≡ none → q ≡ []
unfolding pop_right
pop_right-none [] e = refl
pop_right-none (t ∷ q) e = absurd (ground arith)

-- The right end is taken off.
pub pop_right_lem : (q r : List ℕ) (t : ℕ) → pop_right q ≡ some (r, t) → q ≡ r ++ t ∷ []
unfolding pop_right
pop_right_lem [] r t e = cc
pop_right_lem (u ∷ q) r t e = elim (Option-cases (pop_right q)) [
  | inl none_left ↦ ground (arith, pop_right-none q none_left)
  | inr (p, f) ↦
      let (left, at) = p in
      let shape : (u ∷ left ≡ r) × (at ≡ t) = ground (arith, (rw (f, pop_right) at e)) in
      subst (λ z. u ∷ q ≡ z ++ t ∷ []) shape.0
        (ap (λ l. u ∷ l) (pop_right_lem q left at f ∙ ap (λ z. left ++ z ∷ []) shape.1))
]

pub pop_right-append : (r : List ℕ) (t : ℕ) → pop_right (r ++ t ∷ []) ≡ some (r, t)
unfolding pop_right
pop_right-append [] t = refl
pop_right-append (u ∷ r) t = rw (pop_right-append r t) refl

pub pop_right-times :
    (a : ℕ) (q r : List ℕ) (t : ℕ)
    → pop_right q ≡ some (r, t)
    → times a q ≡ times a r + times a (t ∷ [])
pop_right-times a q r t e = ap (times a) (pop_right_lem q r t e) ∙ times-append a r (t ∷ [])

pub pop_left_lem : (q r : List ℕ) (t : ℕ) → pop_left q ≡ some (t, r) → q ≡ t ∷ r
unfolding pop_left
pop_left_lem [] r t e = cc
pop_left_lem (u ∷ q) r t e = ground arith

pub pop_left-none : (q : List ℕ) → pop_left q ≡ none → q ≡ []
unfolding pop_left
pop_left-none [] e = refl
pop_left-none (t ∷ q) e = absurd (ground arith)
