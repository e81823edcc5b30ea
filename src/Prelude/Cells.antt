-- ===== src/Prelude/Cells.antt =====
-- Memory cells as functions of the address, and predicates over every element of a list.
use Prim.Native.Nat.{ℕ}
use mathlib.Core.Path.{◌≡◌, refl, sym, subst}
use mathlib.Core.Logic.{◌≢◌, ite, if_pos, if_neg}
use mathlib.Core.Bool.{Bool, true, false, ◌||◌}
use mathlib.Core.List.{List, [], ◌∷◌, map}
use native.Mathlib.Decide.{ℕ_discrete}
use native.Mathlib.Omega.{arith}
use amino.Prelude.Tests.{◌==◌}

abbrev pub update {ℓ} : {A : Type ℓ} (cell : ℕ → A) (at : ℕ) (new : A) → ℕ → A
update cell at new other = ite (ℕ_discrete at other) new (cell other)

abbrev pub All {ℓ κ} : {A : Type ℓ} → (A → Type κ) → List A → Type κ
All P [] = Unit
All P (x ∷ xs) = P x × All P xs

abbrev pub NotIn : ℕ → List ℕ → Type 0
NotIn a xs = All (λ b. a ≢ b) xs

abbrev pub IsNodup : List ℕ → Type 0
IsNodup [] = Unit
IsNodup (x ∷ xs) = NotIn x xs × IsNodup xs

unfoldable pub contains : ℕ → List ℕ → Bool
contains a [] = false
contains a (x ∷ xs) = a == x || contains a xs

-- A write to a cell outside the list changes none of its cells.
pub All-update {ℓ} :
    {A : Type ℓ} (P : A → Type 0) (f : ℕ → A) (a : ℕ) (v : A) (xs : List ℕ)
    → NotIn a xs
    → All (λ b. P (f b)) xs
    → All (λ b. P (update f a v b)) xs
All-update P f a v [] n h = tt
All-update P f a v (x ∷ xs) n h = (ground (arith, n.0, h.0), All-update P f a v xs n.1 h.1)

pub map-update {ℓ} :
    {A : Type ℓ} (f : ℕ → A) (a : ℕ) (v : A) (xs : List ℕ)
    → NotIn a xs
    → map (update f a v) xs ≡ map f xs
map-update f a v [] n = refl
map-update f a v (x ∷ xs) n = ground (arith, n.0, map-update f a v xs n.1)

-- A cell whose value differs from all those of a list is not in the list.
pub All-NotIn {ℓ} :
    {A : Type ℓ} (f : ℕ → A) (c : A) (a : ℕ) (xs : List ℕ)
    → f a ≢ c
    → All (λ b. f b ≡ c) xs
    → NotIn a xs
All-NotIn f c a [] n h = tt
All-NotIn f c a (x ∷ xs) n h = (λ e. n (ground (arith, h.0)), All-NotIn f c a xs n h.1)

pub contains-cons_self : (a : ℕ) (xs : List ℕ) → contains a (a ∷ xs) ≡ true
unfolding contains
contains-cons_self a xs = ground arith

pub contains-cons : (a x : ℕ) (xs : List ℕ) → contains a xs ≡ true → contains a (x ∷ xs) ≡ true
unfolding contains
contains-cons a x xs h = ground arith

-- A cell after a write holds the new value or, elsewhere, the old one.
pub update-elim {ℓ κ} :
    {A : Type ℓ} (P : A → Type κ) (f : ℕ → A) (i : ℕ) (v : A) (j : ℕ)
    → (i ≡ j → P v)
    → (i ≢ j → P (f j))
    → P (update f i v j)
update-elim P f i v j new old = elim (ℕ_discrete i j) [
  | yes e ↦ subst P (sym (if_pos (ℕ_discrete i j) e v (f j))) (new e)
  | no ne ↦ subst P (sym (if_neg (ℕ_discrete i j) ne v (f j))) (old ne)
]
