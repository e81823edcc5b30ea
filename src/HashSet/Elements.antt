-- ===== src/HashSet/Elements.antt =====
-- A list of distinct numbers, for the elements of the hash set.
use amino.Prelude.{
  ℕ, ◌-◌, ◌≤◌, ◌≡◌, refl, sym, subst, arith, true, false, not, ◌&&◌, List, [], ◌∷◌, Bool-cases,
  contains, length, inl, inr, ◌==◌, if◌then◌else◌,
}

-- A list of the elements.
unfoldable pub delete : ℕ → List ℕ → List ℕ
delete e [] = []
delete e (x ∷ q) = let rest = delete e q in if e == x then q else x ∷ rest

abbrev pub Distinct : List ℕ → Type 0
Distinct [] = Unit
Distinct (x ∷ q) = (contains x q ≡ false) × Distinct q

contains_same : (x e : ℕ) (q : List ℕ) → contains e q ≡ false → x ≡ e → contains x q ≡ false
contains_same x e q h k = subst (λ z. contains z q ≡ false) (sym k) h

pub contains-delete :
    (e x : ℕ) (q : List ℕ) → Distinct q → contains x (delete e q) ≡ (contains x q && not (e == x))
unfolding contains delete
contains-delete e x [] d = refl
contains-delete e x (y ∷ q) (n, d) = ground (arith, contains-delete e x q d, contains_same x y q n)

contains-length : (e : ℕ) (q : List ℕ) → contains e q ≡ true → 1 ≤ length q
unfolding contains
contains-length e [] h = absurd (ground (arith, h))
contains-length e (x ∷ q) h = omega arith

pub length-delete :
    (e : ℕ) (q : List ℕ) → length (delete e q) ≡ (if contains e q then length q - 1 else length q)
unfolding contains delete
length-delete e [] = refl
length-delete e (y ∷ q) = ground (arith, length-delete e q, contains-length e q)

pub Distinct-delete : (e : ℕ) (q : List ℕ) → Distinct q → Distinct (delete e q)
unfolding delete
Distinct-delete e [] d = tt
Distinct-delete e (y ∷ q) (n, d) = elim (Bool-cases (e == y)) [
  | inl eq ↦ rw eq d
  | inr ne ↦
      let out : contains y (delete e q) ≡ false = ground (arith, contains-delete e y q d) in
      rw ne (out, Distinct-delete e q d)
]
