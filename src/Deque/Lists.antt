-- ===== src/Deque/Lists.antt =====
-- Lists seen from their other end.
use amino.Prelude.{
  ℕ, ◌≡◌, ◌≢◌, refl, sym, ◌∙◌, ap, List, [], ◌∷◌, ◌++◌, map, arith, All, NotIn, IsNodup, update,
}
use amino.Deque.Views.{rev, first, Toward, Loose}

pub rev-snoc : (a : ℕ) (l : List ℕ) → rev (l ++ a ∷ []) ≡ a ∷ rev l
rev-snoc a [] = refl
rev-snoc a (b ∷ l) = ap (λ z. z ++ b ∷ []) (rev-snoc a l)

pub rev-rev : (l : List ℕ) → rev (rev l) ≡ l
rev-rev [] = refl
rev-rev (a ∷ l) = rev-snoc a (rev l) ∙ ap (λ z. a ∷ z) (rev-rev l)

pub map-snoc : (f : ℕ → ℕ) (a : ℕ) (l : List ℕ) → map f (l ++ a ∷ []) ≡ map f l ++ f a ∷ []
map-snoc f a [] = refl
map-snoc f a (b ∷ l) = ap (λ z. f b ∷ z) (map-snoc f a l)

pub map-rev : (f : ℕ → ℕ) (l : List ℕ) → map f (rev l) ≡ rev (map f l)
map-rev f [] = refl
map-rev f (a ∷ l) = map-snoc f a (rev l) ∙ ap (λ z. z ++ f a ∷ []) (map-rev f l)

pub All-snoc : (P : ℕ → Type 0) (a : ℕ) (l : List ℕ) → All P l → P a → All P (l ++ a ∷ [])
All-snoc P a [] h p = (p, tt)
All-snoc P a (b ∷ l) h p = (h.0, All-snoc P a l h.1 p)

pub All-rev : (P : ℕ → Type 0) (l : List ℕ) → All P l → All P (rev l)
All-rev P [] h = tt
All-rev P (a ∷ l) h = All-snoc P a (rev l) (All-rev P l h.1) h.0

NotIn-sym : (a : ℕ) (l : List ℕ) → NotIn a l → All (λ b. b ≢ a) l
NotIn-sym a [] n = tt
NotIn-sym a (b ∷ l) n = ((λ e. n.0 (sym e)), NotIn-sym a l n.1)

IsNodup-snoc : (a : ℕ) (l : List ℕ) → IsNodup l → All (λ b. b ≢ a) l → IsNodup (l ++ a ∷ [])
IsNodup-snoc a [] d n = (tt, tt)
IsNodup-snoc a (b ∷ l) d n = (All-snoc (λ c. b ≢ c) a l d.0 n.0, IsNodup-snoc a l d.1 n.1)

pub IsNodup-rev : (l : List ℕ) → IsNodup l → IsNodup (rev l)
IsNodup-rev [] d = tt
IsNodup-rev (a ∷ l) d =
    IsNodup-snoc a (rev l) (IsNodup-rev l d.1) (All-rev (λ b. b ≢ a) l (NotIn-sym a l d.0))

-- A node is hung on the far end, and taken off it.
pub Toward-snoc :
    (f : ℕ → ℕ) (a b : ℕ) (l : List ℕ)
    → Toward f (l ++ a ∷ [])
    → f b ≡ a
    → Toward f ((l ++ a ∷ []) ++ b ∷ [])
Toward-snoc f a b [] h e = (e, tt)
Toward-snoc f a b (c ∷ []) h e = (h.0, (e, tt))
Toward-snoc f a b (c ∷ d ∷ l) h e = (h.0, Toward-snoc f a b (d ∷ l) h.1 e)

pub Toward-unsnoc :
    (f : ℕ → ℕ) (a b : ℕ) (l : List ℕ)
    → Toward f ((l ++ a ∷ []) ++ b ∷ [])
    → Toward f (l ++ a ∷ []) × (f b ≡ a)
Toward-unsnoc f a b [] h = (tt, h.0)
Toward-unsnoc f a b (c ∷ []) h = ((h.0, tt), h.1.0)
Toward-unsnoc f a b (c ∷ d ∷ l) h = let (k, e) = Toward-unsnoc f a b (d ∷ l) h.1 in ((h.0, k), e)

pub Toward-update :
    (f : ℕ → ℕ) (a v : ℕ) (l : List ℕ) → NotIn a l → Toward f l → Toward (update f a v) l
Toward-update f a v [] n h = tt
Toward-update f a v (b ∷ []) n h = tt
Toward-update f a v (b ∷ c ∷ l) n h =
    (ground (arith, n.1.0, h.0), Toward-update f a v (c ∷ l) n.1 h.1)

pub Toward-Loose : (f : ℕ → ℕ) (l : List ℕ) → Toward f l → Loose f l
Toward-Loose f [] h = tt
Toward-Loose f (a ∷ []) h = tt
Toward-Loose f (a ∷ b ∷ l) h = h.1

pub first-append : (a b : ℕ) (l : List ℕ) → first ((l ++ a ∷ []) ++ b ∷ []) ≡ first (l ++ a ∷ [])
first-append a b [] = refl
first-append a b (c ∷ l) = refl

-- The last of a list without repetition is not its first.
pub last-ne : (a b : ℕ) (l : List ℕ) → IsNodup (a ∷ b ∷ l) → first (rev (a ∷ b ∷ l)) ≢ a
last-ne a b l d e =
    first-All (rev l) (All-rev (λ c. a ≢ c) (b ∷ l) d.0) (sym (sym (first-append b a (rev l)) ∙ e))
  where
    first-All : (k : List ℕ) → NotIn a (k ++ b ∷ []) → a ≢ first (k ++ b ∷ [])
    first-All [] n = n.0
    first-All (c ∷ k) n = n.0
