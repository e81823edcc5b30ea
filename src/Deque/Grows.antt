-- ===== src/Deque/Grows.antt =====
-- What a step of one thread leaves as it is for the others.
use amino.Prelude.{ℕ, ◌≡◌, ◌≢◌, ◌⊎◌, ◌≤◌, inl, inr, refl, sym, ◌∙◌, ap, subst, List, arith}
use amino.Blocking.{End}
use amino.Queue.Invariant.{In}
use amino.Deque.Memory.{
  opp, Anchor, end_of, Owner, free, fresh, pushed, Memory, link, After, done, push, pop, Pc, idle,
  push_load, push_first, push_link, push_cas, pop_load, pop_one, pop_one_cas, pop_left, pop_right,
  pop_check, pop_prev, pop_recheck, pop_cas, pop_read, pop_return, stab_left, stab_right,
  stab_check, stab_prev, stab_end, stab_recheck, stab_next, stab_again, stab_fix, stab_cas,
}
use amino.Deque.Shape.{IsPushed}
use amino.Deque.Invariant.{
  view, Ahead, born, Old, IsNew, Snap, Settled, Watch, Behind, Inner, Within, Older, Fixed,
  IsFineAfter, IsFine,
}

-- `Grows m m' t l l'`: a step of thread t from `m`, where the deque holds the nodes `l`, to `m'`, where it holds `l'`.
pub record Grows (m m' : Memory) (t : ℕ) (l l' : List ℕ) : Type 0 where
  pub mine :
      (j a : ℕ)
      → j ≢ t
      → m.owner a ≡ fresh j
      → (m'.owner a ≡ fresh j) × (m'.value a ≡ m.value a) × ((e : End) → link e m' a ≡ link e m a)
  pub published : (a n : ℕ) → m.owner a ≡ pushed n → m'.owner a ≡ pushed n
  pub value : (a : ℕ) → IsPushed m a → m'.value a ≡ m.value a
  pub returns : (e : End) (a : Anchor) → Snap m e a → m'.anchor ≡ a → m.anchor ≡ a
  pub inner :
      (e : End) (a : Anchor)
      → Snap m e a
      → m.anchor ≡ a
      → link (opp e) m' (end_of e a) ≡ link (opp e) m (end_of e a)
  pub fixed :
      (e : End) (a : Anchor)
      → Snap m e a
      → m.anchor ≡ a
      → Fixed m e a
      → link e m' (link (opp e) m (end_of e a)) ≡ end_of e a
  pub leaves :
      (e : End) (a : Anchor)
      → Snap m e a
      → m.anchor ≡ a
      → (m'.anchor ≡ a) ⊎ (link e m' (link (opp e) m (end_of e a)) ≡ end_of e a)
  pub climbs :
      (e : End) (p : ℕ) → IsPushed m p → born (m.owner (link e m p)) ≤ born (m'.owner (link e m' p))
  pub settled : (e : End) (y : ℕ) → IsPushed m y → Settled m e y → Settled m' e y
  pub kept :
      (e : End) (x y : ℕ)
      → IsPushed m x
      → IsPushed m y
      → In y (view e l')
      → In y (view e l) × (Ahead y x (view e l) → Ahead y x (view e l'))
  pub steady :
      (e : End) (x y : ℕ)
      → IsPushed m x
      → x ≢ y
      → Settled m (opp e) y
      → In y (view (opp e) l')
      → Ahead y x (view (opp e) l)
      → link (opp e) m' x ≡ link (opp e) m x

pub zero_born : (o : Owner) → ((n : ℕ) → o ≢ pushed n) → born o ≡ 0
zero_born free h = refl
zero_born (fresh j) h = refl
zero_born (pushed n) h = absurd (h n refl)

module _ {m m' : Memory} {t : ℕ} {l l' : List ℕ} (g : Grows m m' t l l') where
  pub IsPushed-grows : (a : ℕ) → IsPushed m a → IsPushed m' a
  IsPushed-grows a (nz, n, o) = (nz, n, g.published a n o)

  Old-grows : (a : ℕ) → Old m a → Old m' a
  Old-grows a (inl z) = inl z
  Old-grows a (inr p) = inr (IsPushed-grows a p)

  IsNew-grows : (j d node : ℕ) → j ≢ t → IsNew m j d node → IsNew m' j d node
  IsNew-grows j d node ne (o, nz, v, k) =
      let (o', v', k') = g.mine j node ne o in
      (o', nz, v' ∙ v, λ e. subst (λ z. Old m' z) (sym (k' e)) (Old-grows (link e m node) (k e)))

  Snap-grows : (e : End) (a : Anchor) → Snap m e a → Snap m' e a
  Snap-grows e a (s, p) = (s, IsPushed-grows (end_of e a) p)

  born-grows : (a : ℕ) → IsPushed m a → born (m'.owner a) ≡ born (m.owner a)
  born-grows a (nz, n, o) = ap born (g.published a n o ∙ sym o)

  Watch-grows : (e : End) (old : Anchor) → Watch m l e old → Watch m' l' e old
  Watch-grows e old w = record {
    still = w.still;
    two = w.two;
    near = IsPushed-grows (end_of e old) w.near;
    far = IsPushed-grows (end_of (opp e) old) w.far;
    settled = g.settled (opp e) (end_of (opp e) old) w.far w.settled;
    ahead = λ i.
        let (i', k) = g.kept (opp e) (end_of e old) (end_of (opp e) old) w.near w.far i in
        k (w.ahead i');
  }

  Behind-grows :
      (e : End) (old : Anchor) (prev : ℕ)
      → Watch m l e old
      → Behind m l e old prev
      → Behind m' l' e old prev
  Behind-grows e old prev w b i =
      let (i', k) = g.kept (opp e) (end_of e old) (end_of (opp e) old) w.near w.far i in
      g.steady e (end_of e old) (end_of (opp e) old) w.near w.two w.settled i (w.ahead i') ∙ b i'

  Inner-grows :
      (e : End) (a : Anchor) (prev : ℕ) → Snap m e a → Inner m e a prev → Inner m' e a prev
  Inner-grows e a prev s i h = let h' = g.returns e a s h in g.inner e a s h' ∙ i h'

  Fixed-grows : (e : End) (a : Anchor) → Snap m e a → Fixed m e a → Fixed m' e a
  Fixed-grows e a s f h =
      let h' = g.returns e a s h in ap (link e m') (g.inner e a s h') ∙ g.fixed e a s h' f

  Within-grows :
      (e : End) (a : Anchor) (prev : ℕ)
      → Snap m e a
      → IsPushed m prev
      → Within m e a prev
      → Within m' e a prev
  Within-grows e a prev s p (inr h) =
      inr (ground (arith, h, g.climbs e prev p, born-grows (end_of e a) s.1))
  Within-grows e a prev s p (inl (h, i)) = elim (g.leaves e a s h) [
    | inl h' ↦ inl (h', g.inner e a s h ∙ i)
    | inr f ↦ inr (ground (arith, ap (λ z. born (m'.owner z)) (ap (link e m') (sym i) ∙ f)))
  ]

  Older-grows :
      (e : End) (a : Anchor) (next : ℕ)
      → Snap m e a
      → Old m next
      → ((n : ℕ) → m'.owner 0 ≢ pushed n)
      → Older m e a next
      → Older m' e a next
  Older-grows e a next s (inr p) z h =
      ground (arith, h, born-grows next p, born-grows (end_of e a) s.1)
  Older-grows e a next s (inl n) z h = ground (
    arith,
    h,
    born-grows (end_of e a) s.1,
    zero_born (m'.owner next) (λ k y. z k (ap (m'.owner) (sym n) ∙ y)),
  )

  After-grows : (j : ℕ) (k : After) → j ≢ t → IsFineAfter m j k → IsFineAfter m' j k
  After-grows j done ne f = tt
  After-grows j (push e d node) ne f = IsNew-grows j d node ne f
  After-grows j (pop e) ne f = tt

  -- What another thread knows stays true.
  pub IsFine-grows :
      ((n : ℕ) → m'.owner 0 ≢ pushed n)
      → (j : ℕ) (p : Pc) → j ≢ t
      → IsFine m l j p
      → IsFine m' l' j p
  IsFine-grows z j idle ne f = tt
  IsFine-grows z j (push_load e d node) ne f = IsNew-grows j d node ne f
  IsFine-grows z j (push_first e d node old) ne f = (IsNew-grows j d node ne f.0, f.1)
  IsFine-grows z j (push_link e d node old) ne f =
      (IsNew-grows j d node ne f.0, f.1, IsPushed-grows (end_of e old) f.2)
  IsFine-grows z j (push_cas e d node old) ne (new, st, p, to) = (
    IsNew-grows j d node ne new,
    st,
    IsPushed-grows (end_of e old) p,
    (g.mine j node ne new.0).2 (opp e) ∙ to,
  )
  IsFine-grows z j (pop_load e) ne f = tt
  IsFine-grows z j (pop_one e old) ne f = f
  IsFine-grows z j (pop_one_cas e old) ne f = f
  IsFine-grows z j (pop_left e old) ne f = Watch-grows e old f
  IsFine-grows z j (pop_right e old) ne f = Watch-grows e old f
  IsFine-grows z j (pop_check e old) ne f = Watch-grows e old f
  IsFine-grows z j (pop_prev e old) ne f = Watch-grows e old f
  IsFine-grows z j (pop_recheck e old prev) ne f =
      (Watch-grows e old f.0, Behind-grows e old prev f.0 f.1)
  IsFine-grows z j (pop_cas e old prev) ne f =
      (Watch-grows e old f.0, Behind-grows e old prev f.0 f.1)
  IsFine-grows z j (pop_read x v) ne f = (IsPushed-grows x f.0, g.value x f.0 ∙ f.1)
  IsFine-grows z j (pop_return r v) ne f = f
  IsFine-grows z j (stab_left e a k) ne f = (After-grows j k ne f.0, Snap-grows e a f.1)
  IsFine-grows z j (stab_right e a k) ne f = (After-grows j k ne f.0, Snap-grows e a f.1)
  IsFine-grows z j (stab_check e a k) ne f = (After-grows j k ne f.0, Snap-grows e a f.1)
  IsFine-grows z j (stab_prev e a k) ne f = (After-grows j k ne f.0, Snap-grows e a f.1)
  IsFine-grows z j (stab_end e a prev k) ne f =
      (After-grows j k ne f.0, Snap-grows e a f.1, Inner-grows e a prev f.1 f.2)
  IsFine-grows z j (stab_recheck e a prev k) ne f =
      (After-grows j k ne f.0, Snap-grows e a f.1, Inner-grows e a prev f.1 f.2)
  IsFine-grows z j (stab_next e a prev k) ne (after, s, p, i) =
      (After-grows j k ne after, Snap-grows e a s, IsPushed-grows prev p, Inner-grows e a prev s i)
  IsFine-grows z j (stab_again e a prev next k) ne (after, s, p, i, o, h) = (
    After-grows j k ne after,
    Snap-grows e a s,
    IsPushed-grows prev p,
    Inner-grows e a prev s i,
    Old-grows next o,
    λ y. Older-grows e a next s o z (h (g.returns e a s y)),
  )
  IsFine-grows z j (stab_fix e a prev next k) ne (after, s, p, i, o, h) = (
    After-grows j k ne after,
    Snap-grows e a s,
    IsPushed-grows prev p,
    Within-grows e a prev s p i,
    Old-grows next o,
    Older-grows e a next s o z h,
  )
  IsFine-grows z j (stab_cas e a k) ne (after, s, h) =
      (After-grows j k ne after, Snap-grows e a s, Fixed-grows e a s h)
