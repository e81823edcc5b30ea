-- ===== src/Ordered/Splice.antt =====
-- The linked nodes as a list with ascending keys, where one node comes or goes.
use amino.Prelude.{
  ℕ, ◌≡◌, ◌≢◌, ◌<◌, ◌≤◌, ◌⊎◌, inl, inr, refl, sym, ◌∙◌, ap, subst, List, [], ◌∷◌, arith, All, NotIn,
  update,
}
use amino.Queue.Invariant.{In}

-- The cells from `p` on lead through the nodes of the list to NULL.
abbrev pub Linked : (ℕ → ℕ) → ℕ → List ℕ → Type 0
Linked f p [] = f p ≡ 0
Linked f p (a ∷ l) = (f p ≡ a) × Linked f a l

-- The ranks go up from that of `p` on.
abbrev pub Rising : (ℕ → ℕ) → ℕ → List ℕ → Type 0
Rising r p [] = Unit
Rising r p (a ∷ l) = (r p < r a) × Rising r a l

-- `Splice prev n p l l'`: the list `l'`, after the cell `p`, is `l` with `n` behind `prev`.
pub data Splice (prev n : ℕ) : ℕ → List ℕ → List ℕ → Type 0 where
  here : {p : ℕ} {l : List ℕ} → p ≡ prev → Splice prev n p l (n ∷ l)
  there : {p a : ℕ} {l l' : List ℕ} → Splice prev n a l l' → Splice prev n p (a ∷ l) (a ∷ l')

pub Splice-at : (prev n p : ℕ) (l : List ℕ) → In prev (p ∷ l) → (l' : List ℕ) × Splice prev n p l l'
Splice-at prev n p l (inl e) = (n ∷ l, here (sym e))
Splice-at prev n p [] (inr i) = elim i [ ]
Splice-at prev n p (a ∷ l) (inr i) = let (l', s) = Splice-at prev n a l i in (a ∷ l', there s)

-- The node behind `prev` is spliced in there.
pub Splice-out :
    (f : ℕ → ℕ) (prev c p : ℕ) (l : List ℕ)
    → Linked f p l
    → In prev (p ∷ l)
    → f prev ≡ c
    → c ≢ 0
    → (l' : List ℕ) × Splice prev c p l' l
Splice-out f prev c p [] k (inl e) h nz = absurd (nz (sym h ∙ ap f e ∙ k))
Splice-out f prev c p [] k (inr i) h nz = elim i [ ]
Splice-out f prev c p (a ∷ l) k (inl e) h nz =
    (l, subst (λ z. Splice prev c p l (z ∷ l)) (sym h ∙ ap f e ∙ k.0) (here (sym e)))
Splice-out f prev c p (a ∷ l) k (inr i) h nz =
    let (l', s) = Splice-out f prev c a l k.1 i h nz in (a ∷ l', there s)

module _ (r : ℕ → ℕ) where
  pub Rising-above : (p b : ℕ) (l : List ℕ) → Rising r p l → In b l → r p < r b
  Rising-above p b [] g i = elim i [ ]
  Rising-above p b (a ∷ l) g (inl e) = omega (arith, g.0, ap r e)
  Rising-above p b (a ∷ l) g (inr i) = omega (arith, g.0, Rising-above a b l g.1 i)

  pub Rising-NotIn : (p q : ℕ) (l : List ℕ) → Rising r p l → r q ≤ r p → NotIn q l
  Rising-NotIn p q [] g h = tt
  Rising-NotIn p q (a ∷ l) g h =
      ((λ e. omega (arith, g.0, h, ap r e)), Rising-NotIn a q l g.1 (omega (arith, g.0, h)))

  pub Rising-weaken : (p q : ℕ) (l : List ℕ) → Rising r p l → r q ≤ r p → Rising r q l
  Rising-weaken p q [] g h = tt
  Rising-weaken p q (a ∷ l) g h = (omega (arith, g.0, h), g.1)

  pub Splice-rank :
      (prev n p : ℕ) (l l' : List ℕ) → Splice prev n p l l' → Rising r p l → r p ≤ r prev
  Splice-rank prev n p l l' (here e) g = omega (arith, ap r e)
  Splice-rank prev n p l l' (there {a = a} {l = k} {l' = k'} s) g =
      omega (arith, g.0, Splice-rank prev n a k k' s g.1)

agree : (f : ℕ → ℕ) (c v : ℕ) (l : List ℕ) → NotIn c l → All (λ a. update f c v a ≡ f a) l
agree f c v [] n = tt
agree f c v (a ∷ l) n = (ground (arith, n.0), agree f c v l n.1)

-- The cell `p` of `g` leads where the cell `q` of `f` did.
Linked-jump :
    (f g : ℕ → ℕ) (p q : ℕ) (l : List ℕ)
    → g p ≡ f q
    → All (λ a. g a ≡ f a) l
    → Linked f q l
    → Linked g p l
Linked-jump f g p q [] h a k = h ∙ k
Linked-jump f g p q (b ∷ l) h a k = (h ∙ k.0, Linked-jump f g b b l a.0 a.1 k.1)

pub Linked-update :
    (f : ℕ → ℕ) (c v p : ℕ) (l : List ℕ)
    → c ≢ p
    → NotIn c l
    → Linked f p l
    → Linked (update f c v) p l
Linked-update f c v p l ne n k =
    Linked-jump f (update f c v) p p l (ground (arith, ne)) (agree f c v l n) k

pub Rising-cong :
    (r r' : ℕ → ℕ) (p : ℕ) (l : List ℕ)
    → r' p ≡ r p
    → All (λ a. r' a ≡ r a) l
    → Rising r p l
    → Rising r' p l
Rising-cong r r' p [] e h g = tt
Rising-cong r r' p (a ∷ l) e h g = (omega (arith, e, h.0, g.0), Rising-cong r r' a l h.0 h.1 g.1)

-- A node comes.
module _ (r f : ℕ → ℕ) (prev n : ℕ) where
  pub Linked-in :
      (p : ℕ) (l l' : List ℕ)
      → Splice prev n p l l'
      → Linked f p l
      → Rising r p l
      → prev ≢ n
      → f n ≡ f prev
      → Linked (update f prev n) p l'
  Linked-in p l l' (here e) k g ne h = (
    ground (arith, e),
    Linked-jump f (update f prev n) n p l (ground (arith, ne, h, ap f e))
        (agree f prev n l (Rising-NotIn r p prev l g (omega (arith, ap r e)))) k,
  )
  Linked-in p l l' (there {a = a} {l = i} {l' = i'} s) k g ne h =
      let past : p ≢ prev = λ e. omega (arith, g.0, Splice-rank r prev n a i i' s g.1, ap r e) in
      (ground (arith, past, k.0), Linked-in a i i' s k.1 g.1 ne h)

  pub Rising-in :
      (p : ℕ) (l l' : List ℕ)
      → Splice prev n p l l'
      → Linked f p l
      → Rising r p l
      → r 0 ≡ 0
      → r prev < r n
      → (f prev ≡ 0) ⊎ (r n < r (f prev))
      → Rising r p l'
  Rising-in p [] l' (here e) k g z lt c = (omega (arith, lt, ap r e), tt)
  Rising-in p (b ∷ l) l' (here e) k g z lt (inl c) =
      absurd (omega (arith, g.0, z, ap r (sym k.0 ∙ ap f e ∙ c)))
  Rising-in p (b ∷ l) l' (here e) k g z lt (inr c) =
      (omega (arith, lt, ap r e), (omega (arith, c, ap r (sym k.0 ∙ ap f e)), g.1))
  Rising-in p l l' (there {a = a} {l = i} {l' = i'} s) k g z lt c =
      (g.0, Rising-in a i i' s k.1 g.1 z lt c)

pub All-in :
    (P : ℕ → Type 0) {prev n p : ℕ} {l l' : List ℕ}
    → Splice prev n p l l'
    → All P l
    → P n
    → All P l'
All-in P (here e) h x = (x, h)
All-in P (there s) h x = (h.0, All-in P s h.1 x)

pub In-In : {prev n p : ℕ} {l l' : List ℕ} (b : ℕ) → Splice prev n p l l' → In b l → In b l'
In-In b (here e) i = inr i
In-In b (there s) (inl e) = inl e
In-In b (there s) (inr i) = inr (In-In b s i)

pub In-new : {prev n p : ℕ} {l l' : List ℕ} → Splice prev n p l l' → In n l'
In-new (here e) = inl refl
In-new (there s) = inr (In-new s)

-- A node goes.
module _ (r f : ℕ → ℕ) (prev c : ℕ) where
  pub Rising-out : (p : ℕ) (l l' : List ℕ) → Splice prev c p l' l → Rising r p l → Rising r p l'
  Rising-out p l l' (here e) g = Rising-weaken r c p l' g.1 (omega (arith, g.0))
  Rising-out p l l' (there {a = a} {l = i'} {l' = i} s) g = (g.0, Rising-out a i i' s g.1)

  pub Linked-out :
      (p : ℕ) (l l' : List ℕ)
      → Splice prev c p l' l
      → Linked f p l
      → Rising r p l
      → Linked (update f prev (f c)) p l'
  Linked-out p l l' (here e) k g =
      Linked-jump f (update f prev (f c)) p c l' (ground (arith, e))
        (agree f prev (f c) l' (Rising-NotIn r c prev l' g.1 (omega (arith, g.0, ap r e)))) k.1
  Linked-out p l l' (there {a = a} {l = i'} {l' = i} s) k g =
      let past : p ≢ prev =
        λ e. omega (arith, g.0, Splice-rank r prev c a i' i s (Rising-out a i i' s g.1), ap r e) in
      (ground (arith, past, k.0), Linked-out a i i' s k.1 g.1)

pub All-out :
    (P : ℕ → Type 0) {prev c p : ℕ} {l l' : List ℕ} → Splice prev c p l' l → All P l → All P l'
All-out P (here e) h = h.1
All-out P (there s) h = (h.0, All-out P s h.1)

pub In-out :
    {prev c p : ℕ} {l l' : List ℕ} (b : ℕ) → Splice prev c p l' l → In b l → b ≢ c → In b l'
In-out b (here e) (inl q) ne = absurd (ne q)
In-out b (here e) (inr i) ne = i
In-out b (there s) (inl q) ne = inl q
In-out b (there s) (inr i) ne = inr (In-out b s i ne)

pub Splice-over :
    (r : ℕ → ℕ) (prev c p : ℕ) (l l' : List ℕ) → Splice prev c p l' l → Rising r p l → r prev < r c
Splice-over r prev c p l l' (here e) g = omega (arith, g.0, ap r e)
Splice-over r prev c p l l' (there {a = a} {l = i'} {l' = i} s) g =
    Splice-over r prev c a i i' s g.1

pub NotIn-gone :
    (r : ℕ → ℕ) (prev c p : ℕ) (l l' : List ℕ) → Splice prev c p l' l → Rising r p l → NotIn c l'
NotIn-gone r prev c p l l' (here e) g = Rising-NotIn r c c l' g.1 (omega arith)
NotIn-gone r prev c p l l' (there {a = a} {l = i'} {l' = i} s) g = (
  λ e. omega (
    arith,
    ap r e,
    Splice-over r prev c a i i' s g.1,
    Splice-rank r prev c a i' i s (Rising-out r (λ z. z) prev c a i i' s g.1),
  ),
  NotIn-gone r prev c a i i' s g.1,
)
