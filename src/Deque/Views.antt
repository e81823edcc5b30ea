-- ===== src/Deque/Views.antt =====
-- Lists of nodes seen from an end, and how the nodes point toward it.
use amino.Prelude.{ℕ, ◌≡◌, List, [], ◌∷◌, ◌++◌}

abbrev pub rev : List ℕ → List ℕ
rev [] = []
rev (a ∷ l) = rev l ++ a ∷ []

abbrev pub first : List ℕ → ℕ
first [] = 0
first (a ∷ l) = a

-- Each node but the first points to the one before it.
abbrev pub Toward : (ℕ → ℕ) → List ℕ → Type 0
Toward f [] = Unit
Toward f (a ∷ []) = Unit
Toward f (a ∷ b ∷ l) = (f b ≡ a) × Toward f (b ∷ l)

-- The same, but for the second node.
abbrev pub Loose : (ℕ → ℕ) → List ℕ → Type 0
Loose f [] = Unit
Loose f (a ∷ l) = Toward f l
