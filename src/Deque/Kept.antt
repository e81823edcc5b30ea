-- ===== src/Deque/Kept.antt =====
-- Which nodes stand in which order, as a node comes or goes at either end.
use amino.Prelude.{ℕ, ◌≡◌, ◌≢◌, inl, inr, sym, subst, List, [], ◌∷◌, ◌++◌, NotIn}
use amino.Blocking.{End, left, right}
use amino.Queue.Invariant.{In}
use amino.Queue.Shape.{NotIn-ne, In-append}
use amino.Deque.Memory.{Memory, pushed}
use amino.Deque.Views.{rev}
use amino.Deque.Lists.{rev-rev}
use amino.Deque.Shape.{IsPushed}
use amino.Deque.Invariant.{view, Ahead}

-- The old nodes of `v'` stand in `v`, in the same order.
abbrev pub Kept : Memory → List ℕ → List ℕ → Type 0
Kept m v v' =
    (x y : ℕ) → IsPushed m x → IsPushed m y → In y v' → In y v × (Ahead y x v → Ahead y x v')

Ahead-append : (y x : ℕ) (v r : List ℕ) → In y v → Ahead y x v → Ahead y x (v ++ r)
Ahead-append y x [] r i h = elim i [ ]
Ahead-append y x (b ∷ v) r i (inl e) = inl e
Ahead-append y x (b ∷ v) r (inl i) (inr h) = inl (sym i)
Ahead-append y x (b ∷ v) r (inr i) (inr h) = inr (h.0, Ahead-append y x v r i h.1)

Ahead-prefix : (y x : ℕ) (v r : List ℕ) → In y v → Ahead y x (v ++ r) → Ahead y x v
Ahead-prefix y x [] r i h = elim i [ ]
Ahead-prefix y x (b ∷ v) r i (inl e) = inl e
Ahead-prefix y x (b ∷ v) r (inl i) (inr h) = inl (sym i)
Ahead-prefix y x (b ∷ v) r (inr i) (inr h) = inr (h.0, Ahead-prefix y x v r i h.1)

In-snoc : (y b : ℕ) (v : List ℕ) → b ≢ y → In y (v ++ b ∷ []) → In y v
In-snoc y b [] ne (inl e) = absurd (ne (sym e))
In-snoc y b [] ne (inr i) = i
In-snoc y b (c ∷ v) ne (inl e) = inl e
In-snoc y b (c ∷ v) ne (inr i) = inr (In-snoc y b v ne i)

module _ (m : Memory) (node : ℕ) (out : (n : ℕ) → m.owner node ≢ pushed n) where
  other : (a : ℕ) → IsPushed m a → node ≢ a
  other a (nz, n, o) e = out n (subst (λ z. m.owner z ≡ pushed n) (sym e) o)

  pub Kept-cons : (v : List ℕ) → Kept m v (node ∷ v)
  Kept-cons v x y p q (inl e) = absurd (other y q (sym e))
  Kept-cons v x y p q (inr i) = (i, λ h. inr (other x p, h))

  pub Kept-snoc : (v : List ℕ) → Kept m v (v ++ node ∷ [])
  Kept-snoc v x y p q i =
      let i' = In-snoc y node v (other y q) i in (i', Ahead-append y x v (node ∷ []) i')

pub Kept-tail : (m : Memory) (h : ℕ) (v : List ℕ) → NotIn h v → Kept m (h ∷ v) v
Kept-tail m h v n x y p q i = (inr i, later)
  where
    later : Ahead y x (h ∷ v) → Ahead y x v
    later (inl e) = absurd (NotIn-ne h y v n i e)
    later (inr a) = a.1

pub Kept-unsnoc : (m : Memory) (h : ℕ) (v : List ℕ) → Kept m (v ++ h ∷ []) v
Kept-unsnoc m h v x y p q i = (In-append y v (h ∷ []) i, Ahead-prefix y x v (h ∷ []) i)

-- Seen from either end.
pub Kept-view :
    (m : Memory) (e : End) (v v' : List ℕ)
    → Kept m v v'
    → Kept m (rev v) (rev v')
    → (e' : End) → Kept m (view e' (view e v)) (view e' (view e v'))
Kept-view m left v v' k r left = k
Kept-view m left v v' k r right = r
Kept-view m right v v' k r left = r
Kept-view m right v v' k r right =
    subst (λ z. Kept m z (rev (rev v'))) (sym (rev-rev v))
      (subst (λ z. Kept m v z) (sym (rev-rev v')) k)
