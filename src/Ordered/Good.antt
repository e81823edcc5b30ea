-- ===== src/Ordered/Good.antt =====
-- What is shown of one step, and what the linked nodes say about a key.
use amino.Prelude.{
  ℕ, suc, Bool, true, false, ◌≡◌, ◌≢◌, ◌<◌, ◌⊎◌, inl, inr, refl, sym, ◌∙◌, ap, subst, List, [], ◌∷◌,
  arith, contains,
}
use amino.Queue.Invariant.{In}
use amino.Queue.Shape.{In-All}
use amino.Ordered.Memory.{Owner, free, fresh, linked, unlinked, Points, Memory, Event, Pc}
use amino.Ordered.System.{NoCall, Spec}
use amino.Ordered.Splice.{Linked, Splice-at}
use amino.Ordered.Live.{rank, rank_node, absent}
use amino.Ordered.Invariant.{contents, is_published, IsPublished, Old, IsPrev, IsFine, IsSound}
use amino.Ordered.Grows.{Grows}

-- A step of thread `t` with the event `e`, from a memory in which the set has the keys of `l`.
pub record Good (saw : ℕ → ℕ → Bool → Type 0) (m m' : Memory) (t : ℕ) (p' : Pc) (l : List ℕ)
    (e : Event) : Type 1 where
  pub grows : Grows m m' t
  pub after : List ℕ
  pub sound : IsSound m' after
  pub spec : Spec saw e (contents m l) (contents m' after)
  pub own :
      (saw' : ℕ → ℕ → Bool → Type 0)
      → ((d : ℕ) (b : Bool) → contains d (contents m' after) ≡ b → saw' t d b)
      → (NoCall t e → (d : ℕ) (b : Bool) → saw t d b → saw' t d b)
      → IsFine m' saw' t p'

pub Grows-refl : (m : Memory) (t : ℕ) → Grows m m t
Grows-refl m t = record {
  mine = λ j a ne o. (o, refl, refl, refl);
  published = λ a p. (p, refl);
  gone = λ a r. r;
  dead = λ a p k. (k, refl);
}

Linked-next :
    (f : ℕ → ℕ) (a p : ℕ) (l : List ℕ) → Linked f p l → In a (p ∷ l) → (f a ≡ 0) ⊎ In (f a) l
Linked-next f a p [] k (inl e) = inl (ap f e ∙ k)
Linked-next f a p [] k (inr i) = elim i [ ]
Linked-next f a p (b ∷ l) k (inl e) = inr (inl (ap f e ∙ k.0))
Linked-next f a p (b ∷ l) k (inr i) = elim (Linked-next f a b l k.1 i) [
  | inl z ↦ inl z
  | inr j ↦ inr (inr j)
]

published_cases : (o : Owner) → is_published o ≡ true → (o ≡ linked) ⊎ (o ≡ unlinked)
published_cases free h = absurd (ground (arith, h))
published_cases (fresh t) h = absurd (ground (arith, h))
published_cases linked h = inl refl
published_cases unlinked h = inr refl

module _ {m : Memory} {l : List ℕ} (s : IsSound m l) where
  pub node_nonzero : (a : ℕ) → IsPublished m a → a ≢ 0
  node_nonzero a p z = ground (arith, p, ap (λ y. m.owner y) z, s.null)

  pub rank-IsPrev : (d prev : ℕ) → IsPrev m d prev → rank m.key prev < suc d
  rank-IsPrev d prev (inl z) = omega (arith, ap (rank m.key) z)
  rank-IsPrev d prev (inr (p, h)) = omega (arith, h, rank_node m.key prev (node_nonzero prev p))

  -- A cell without a mark belongs to the list.
  pub In-unmarked : (d prev : ℕ) → IsPrev m d prev → m.marked prev ≡ false → In prev (0 ∷ l)
  In-unmarked d prev (inl z) k = inl z
  In-unmarked d prev (inr (p, h)) k = inr (s.live_in prev p k)

  pub prev_old : (d prev : ℕ) → IsPrev m d prev → (t a : ℕ) → m.owner a ≡ fresh t → prev ≢ a
  prev_old d prev (inl z) t a o e = ground (arith, o, s.null, ap m.owner (sym e ∙ z))
  prev_old d prev (inr q) t a o e = ground (arith, o, q.0, ap m.owner e)

  -- The pointer of a linked node leads to a linked node.
  pub next-Old : (a : ℕ) → In a (0 ∷ l) → Old m (m.next a)
  next-Old a i = elim (Linked-next m.next a 0 l s.chain i) [
    | inl z ↦ inl z
    | inr j ↦ inr (ground (arith, In-All (λ b. m.owner b ≡ linked) (m.next a) l s.all j))
  ]

  -- A node that a cell without a mark points to is linked.
  pub pointed-In :
      (d prev cur : ℕ) → IsPrev m d prev → Points m prev cur → IsPublished m cur → In cur l
  pointed-In d prev cur p at c =
      elim (Linked-next m.next prev 0 l s.chain (In-unmarked d prev p at.1)) [
        | inl z ↦ absurd (node_nonzero cur c (sym at.0 ∙ z))
        | inr j ↦ subst (λ b. In b l) at.0 j
      ]

  pub pointed_linked :
      (d prev cur : ℕ)
      → IsPrev m d prev
      → Points m prev cur
      → IsPublished m cur
      → m.owner cur ≡ linked
  pointed_linked d prev cur p at c =
      In-All (λ b. m.owner b ≡ linked) cur l s.all (pointed-In d prev cur p at c)

  -- A node that was read twice with the pointer `nx` is out of the list, or `nx` is in it.
  pub read_next : (cur : ℕ) → IsPublished m cur → Old m (m.next cur) ⊎ (m.owner cur ≡ unlinked)
  read_next cur c = elim (published_cases (m.owner cur) c) [
    | inl h ↦ inl (next-Old cur (inr (s.linked_in cur h)))
    | inr r ↦ inr r
  ]

  -- Between two neighbours there is no key.
  pub absent_between :
      (d prev cur : ℕ)
      → IsPrev m d prev
      → m.marked prev ≡ false
      → m.next prev ≡ cur
      → (cur ≡ 0) ⊎ (d < m.key cur)
      → contains d (contents m l) ≡ false
  absent_between d prev cur p k h b =
      let (l', sp) = Splice-at prev 0 0 l (In-unmarked d prev p k) in
      absent m.marked m.key m.next prev d (rank-IsPrev d prev p) (at_next b) 0 0 l l' sp s.chain
        s.rising
    where
      at_next : (cur ≡ 0) ⊎ (d < m.key cur) → (m.next prev ≡ 0) ⊎ (d < m.key (m.next prev))
      at_next (inl z) = inl (h ∙ z)
      at_next (inr x) = inr (subst (λ y. d < m.key y) (sym h) x)

pub head_old : (m : Memory) (l : List ℕ) → IsSound m l → Old m (m.next 0)
head_old m [] s = inl s.chain
head_old m (a ∷ l) s = inr (ground (arith, s.chain.0, ap m.owner s.chain.0, s.all.0))
