-- ===== src/Deque/Good.antt =====
-- What is shown of one step, and the steps that change neither the anchor nor a node of the deque.
use amino.Prelude.{ℕ, ◌≡◌, ◌≢◌, ◌≤◌, inl, inr, refl, sym, ◌∙◌, subst, List, [], ◌∷◌, arith, All}
use amino.Blocking.{End, left, right, Event}
use amino.Blocking.Order.{Spec}
use amino.Deque.Memory.{opp, Anchor, end_of, Owner, free, fresh, pushed, Memory, link, Pc}
use amino.Deque.Views.{rev, Toward, Loose}
use amino.Deque.Lists.{All-rev}
use amino.Deque.Shape.{IsPushed, Side}
use amino.Deque.Invariant.{contents, born, Old, Snap, IsFine, IsSound}
use amino.Deque.Grows.{Grows}

pub record Good (m m' : Memory) (t : ℕ) (p' : Pc) (l : List ℕ) (e : Event) : Type 0 where
  pub after : List ℕ
  pub grows : Grows m m' t l after
  pub own : IsFine m' after t p'
  pub sound : IsSound m' after
  pub spec : Spec e (contents m l) (contents m' after)

pub Grows-refl : (m : Memory) (t : ℕ) (l : List ℕ) → Grows m m t l l
Grows-refl m t l = record {
  mine = λ j a ne o. (o, refl, λ e. refl);
  published = λ a n o. o;
  value = λ a p. refl;
  returns = λ e a s h. h;
  inner = λ e a s h. refl;
  fixed = λ e a s h f. f h;
  leaves = λ e a s h. inl h;
  climbs = λ e p h. omega arith;
  settled = λ e y p h. h;
  kept = λ e x y p q i. (i, λ h. h);
  steady = λ e x y p ne s i h. refl;
}

-- A step that only reads.
pub reads :
    {m : Memory} {t : ℕ} {l : List ℕ} {p' : Pc} {e : Event}
    → IsSound m l
    → IsFine m l t p'
    → Spec e (contents m l) (contents m l)
    → Good m m t p' l e
reads {m} {t} {l} s f sp = record {
  after = l;
  grows = Grows-refl m t l;
  own = f;
  sound = s;
  spec = sp;
}

born_mono : (o o' : Owner) → ((n : ℕ) → o ≡ pushed n → o' ≡ pushed n) → born o ≤ born o'
born_mono free o' h = omega arith
born_mono (fresh j) o' h = omega arith
born_mono (pushed n) o' h = ground (arith, h n refl)

pub born_le :
    (m m' : Memory)
    → ((a n : ℕ) → m.owner a ≡ pushed n → m'.owner a ≡ pushed n)
    → (a : ℕ) → born (m.owner a) ≤ born (m'.owner a)
born_le m m' h a = born_mono (m.owner a) (m'.owner a) (h a)

pub link_cong :
    (m m' : Memory) (a : ℕ)
    → m'.to_left a ≡ m.to_left a
    → m'.to_right a ≡ m.to_right a
    → (e : End) → link e m' a ≡ link e m a
link_cong m m' a f g left = f
link_cong m m' a f g right = g

All-cong : (P Q : ℕ → Type 0) (l : List ℕ) → ((a : ℕ) → P a → Q a) → All P l → All Q l
All-cong P Q [] h a = tt
All-cong P Q (b ∷ l) h a = (h b a.0, All-cong P Q l h a.1)

Toward-cong : (f g : ℕ → ℕ) (l : List ℕ) → All (λ a. g a ≡ f a) l → Toward f l → Toward g l
Toward-cong f g [] h c = tt
Toward-cong f g (a ∷ []) h c = tt
Toward-cong f g (a ∷ b ∷ l) h c = (h.1.0 ∙ c.0, Toward-cong f g (b ∷ l) h.1 c.1)

Loose-cong : (f g : ℕ → ℕ) (l : List ℕ) → All (λ a. g a ≡ f a) l → Loose f l → Loose g l
Loose-cong f g [] h c = tt
Loose-cong f g (a ∷ l) h c = Toward-cong f g l h.1 c

-- A step that writes nodes that nobody else can see.
module _ (m : Memory) (t : ℕ) (l : List ℕ) (value' to_left' to_right' : ℕ → ℕ) (owner' : ℕ → Owner)
    (owners : (a n : ℕ) → m.owner a ≡ pushed n → owner' a ≡ pushed n)
    (owners' : (a n : ℕ) → owner' a ≡ pushed n → m.owner a ≡ pushed n)
    (values : (a : ℕ) → IsPushed m a → value' a ≡ m.value a)
    (lefts : (a : ℕ) → IsPushed m a → to_left' a ≡ m.to_left a)
    (rights : (a : ℕ) → IsPushed m a → to_right' a ≡ m.to_right a) (s : IsSound m l) where
  abbrev pub hidden : Memory
  hidden = record m { value = value'; to_left = to_left'; to_right = to_right'; owner = owner' }

  same : (e : End) (a : ℕ) → IsPushed m a → link e hidden a ≡ link e m a
  same e a p = link_cong m hidden a (lefts a p) (rights a p) e

  IsPushed-hidden : (a : ℕ) → IsPushed m a → IsPushed hidden a
  IsPushed-hidden a (nz, n, o) = (nz, n, owners a n o)

  Old-hidden : (a : ℕ) → Old m a → Old hidden a
  Old-hidden a (inl z) = inl z
  Old-hidden a (inr p) = inr (IsPushed-hidden a p)

  Side-hidden : (e : End) (v : List ℕ) → All (IsPushed m) v → Side m e v → Side hidden e v
  Side-hidden e v a d = record {
    starts = d.starts;
    loose =
        Loose-cong (link e m) (link e hidden) v
          (All-cong (IsPushed m) (λ b. link e hidden b ≡ link e m b) v (same e) a) d.loose;
    firm = λ z.
        Toward-cong (link e m) (link e hidden) v
          (All-cong (IsPushed m) (λ b. link e hidden b ≡ link e m b) v (same e) a) (d.firm z);
  }

  pub IsSound-hidden : IsSound hidden l
  IsSound-hidden = record {
    shape = record {
      near = Side-hidden left l s.shape.all s.shape.near;
      far = Side-hidden right (rev l) (All-rev (IsPushed m) l s.shape.all) s.shape.far;
      nodup = s.shape.nodup;
      all = All-cong (IsPushed m) (IsPushed hidden) l IsPushed-hidden s.shape.all;
    };
    two = s.two;
    newest = λ e h. let (n, o, c) = s.newest e h in (n, owners (end_of e m.anchor) n o, c);
    below = λ a n o. s.below a n (owners' a n o);
    apart = λ a b n o o'. s.apart a b n (owners' a n o) (owners' b n o');
    links = λ e a p. before e a (p.0, p.1, owners' a p.1 p.2);
    null = λ n o. s.null n (owners' 0 n o);
  }
    where
      before : (e : End) (a : ℕ) → IsPushed m a → Old hidden (link e hidden a)
      before e a p =
          subst (λ z. Old hidden z) (sym (same e a p)) (Old-hidden (link e m a) (s.links e a p))

  pub Grows-hidden :
      ((j a : ℕ)
        → j ≢ t
        → m.owner a ≡ fresh j
        → (owner' a ≡ fresh j)
          × (value' a ≡ m.value a)
          × ((e : End) → link e hidden a ≡ link e m a))
      → ((e : End) (a : Anchor)
          → m.anchor ≡ a
          → Snap m e a
          → IsPushed m (link (opp e) m (end_of e a)))
      → Grows m hidden t l l
  Grows-hidden mine second = record {
    mine = mine;
    published = owners;
    value = values;
    returns = λ e a sn h. h;
    inner = λ e a sn h. same (opp e) (end_of e a) sn.1;
    fixed = λ e a sn h f. same e (link (opp e) m (end_of e a)) (second e a h sn) ∙ f h;
    leaves = λ e a sn h. inl h;
    climbs = λ e p q. ground (arith, same e p q, born_le m hidden owners (link e m p));
    settled = λ e y p h. h;
    kept = λ e x y p q i. (i, λ h. h);
    steady = λ e x y p ne d i h. same (opp e) x p;
  }
