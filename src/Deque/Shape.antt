-- ===== src/Deque/Shape.antt =====
-- The list of nodes that the deque stands for, seen from either end.
use amino.Prelude.{ℕ, ◌≡◌, ◌≢◌, refl, sym, subst, List, arith, All, IsNodup, update}
use amino.Deque.Views.{rev, first, Toward, Loose}
use amino.Deque.Lists.{rev-rev, IsNodup-rev, All-rev}
use amino.Blocking.{End, left, right}
use amino.Deque.Memory.{
  opp, Status, stable, pushing, end_of, anchor_of, pushed, Memory, link, set_link,
}

abbrev pub IsPushed : Memory → ℕ → Type 0
IsPushed m a = (a ≢ 0) × (n : ℕ) × (m.owner a ≡ pushed n)

-- The nodes `v` from end `e` on: the anchor names the first, and the links toward the end follow the list, except that
-- the one to a node that was just pushed there may be missing.
pub record Side (m : Memory) (e : End) (v : List ℕ) : Type 0 where
  pub starts : end_of e m.anchor ≡ first v
  pub loose : Loose (link e m) v
  pub firm : m.anchor.status ≢ pushing e → Toward (link e m) v

-- `Shape m e v`: the deque holds the nodes `v`, counted from end `e`.
pub record Shape (m : Memory) (e : End) (v : List ℕ) : Type 0 where
  pub near : Side m e v
  pub far : Side m (opp e) (rev v)
  pub nodup : IsNodup v
  pub all : All (IsPushed m) v

opp-opp : (e : End) → opp (opp e) ≡ e
opp-opp left = refl
opp-opp right = refl

pub end_of-anchor_of : (e : End) (x y : ℕ) (s : Status) → end_of e (anchor_of e x y s) ≡ x
end_of-anchor_of left x y s = refl
end_of-anchor_of right x y s = refl

pub end_of-opp : (e : End) (x y : ℕ) (s : Status) → end_of (opp e) (anchor_of e x y s) ≡ y
end_of-opp left x y s = refl
end_of-opp right x y s = refl

pub link-set_link :
    (e : End) (m : Memory) (x v : ℕ) → link e (set_link e x v m) ≡ update (link e m) x v
link-set_link left m x v = refl
link-set_link right m x v = refl

pub link-opp-set_link :
    (e : End) (m : Memory) (x v : ℕ) → link (opp e) (set_link e x v m) ≡ link (opp e) m
link-opp-set_link left m x v = refl
link-opp-set_link right m x v = refl

pub pushing_ne : (e : End) → pushing e ≢ pushing (opp e)
pushing_ne left h = ground (arith, h)
pushing_ne right h = ground (arith, h)

pub pushing_inj : (e i : End) → pushing e ≡ pushing i → e ≡ i
pushing_inj left left h = refl
pushing_inj left right h = absurd (pushing_ne left h)
pushing_inj right left h = absurd (pushing_ne right h)
pushing_inj right right h = refl

pub stable_ne : (e : End) → stable ≢ pushing e
stable_ne e h = ground (arith, h)

pub Shape-flip : (m : Memory) (e : End) (v : List ℕ) → Shape m e v → Shape m (opp e) (rev v)
Shape-flip m e v s = record {
  near = s.far;
  far =
      subst (λ z. Side m z (rev (rev v))) (sym (opp-opp e))
        (subst (λ z. Side m e z) (sym (rev-rev v)) (s.near));
  nodup = IsNodup-rev v s.nodup;
  all = All-rev (IsPushed m) v s.all;
}
