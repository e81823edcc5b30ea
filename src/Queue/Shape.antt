-- ===== src/Queue/Shape.antt =====
-- The list of linked nodes under the writes that the threads make.
use amino.Prelude.{
  ℕ, ◌≡◌, ◌≢◌, inl, inr, refl, sym, ◌∙◌, ap, subst, List, [], ◌∷◌, ◌++◌, arith, All, NotIn, IsNodup,
  update, All-update, All-NotIn, ℕ_discrete,
}
use amino.Queue.Memory.{free, fresh, linked, removed, Memory}
use amino.Queue.Invariant.{Chain, In, IsPublished, IsNew, Follows, TailPast, Shape}

Chain-update :
    (f : ℕ → ℕ) (p a v : ℕ) (l : List ℕ) → NotIn a l → Chain f p l → Chain (update f a v) p l
Chain-update f p a v [] n c = c
Chain-update f p a v (b ∷ l) n c =
    (c.0, c.1, ground (arith, n.0, Chain-update f (f b) a v l n.1 c.2))

-- A node of the chain that points nowhere is its end, and there a node is hung on.
Chain-snoc :
    (f : ℕ → ℕ) (p a v : ℕ) (l : List ℕ)
    → Chain f p l
    → In a l
    → IsNodup l
    → NotIn v l
    → v ≢ 0
    → f a ≡ 0
    → f v ≡ 0
    → Chain (update f a v) p (l ++ v ∷ [])
Chain-snoc f p a v [] c i d n nz z y = elim i [ ]
Chain-snoc f p a v (b ∷ []) c (inl e) d n nz z y =
    (c.0, c.1, (ground (arith, e), nz, ground (arith, e, n.0)))
Chain-snoc f p a v (b ∷ k ∷ l) c (inl e) d n nz z y = absurd (ground (arith, e, c.2.0, c.2.1))
Chain-snoc f p a v (b ∷ l) c (inr i) d n nz z y =
    let rest = Chain-snoc f (f b) a v l c.2 i d.1 n.1 nz z y in
    (c.0, c.1, ground (arith, rest, apart b l d.0 i))
  where
    apart : (b : ℕ) (l : List ℕ) → NotIn b l → In a l → a ≢ b
    apart b [] n i y = elim i [ ]
    apart b (k ∷ l) n (inl e) y = n.0 (sym y ∙ e)
    apart b (k ∷ l) n (inr i) y = apart b l n.1 i y

-- The node after one of the chain is in the chain, and not its first.
pub In-next :
    (f : ℕ → ℕ) (p a nx h : ℕ) (l : List ℕ)
    → Chain f p (h ∷ l)
    → In a (h ∷ l)
    → f a ≡ nx
    → nx ≢ 0
    → In nx l
In-next f p a nx h [] c (inl e) x nz = absurd (ground (arith, e, c.2))
In-next f p a nx h [] c (inr i) x nz = absurd i
In-next f p a nx h (b ∷ l) c (inl e) x nz = inl (ground (arith, e, c.2.0))
In-next f p a nx h (b ∷ l) c (inr i) x nz = inr (In-next f (f h) a nx b l c.2 i x nz)

pub NotIn-ne : (a b : ℕ) (l : List ℕ) → NotIn a l → In b l → a ≢ b
NotIn-ne a b [] n i y = elim i [ ]
NotIn-ne a b (k ∷ l) n (inl e) y = n.0 (y ∙ e)
NotIn-ne a b (k ∷ l) n (inr i) y = NotIn-ne a b l n.1 i y

pub In-All : (P : ℕ → Type 0) (a : ℕ) (l : List ℕ) → All P l → In a l → P a
In-All P a [] h i = elim i [ ]
In-All P a (b ∷ l) h (inl e) = subst P (sym e) h.0
In-All P a (b ∷ l) h (inr i) = In-All P a l h.1 i

pub In-append : (a : ℕ) (l r : List ℕ) → In a l → In a (l ++ r)
In-append a [] r i = elim i [ ]
In-append a (b ∷ l) r (inl e) = inl e
In-append a (b ∷ l) r (inr i) = inr (In-append a l r i)

In-last : (a : ℕ) (l : List ℕ) → In a (l ++ a ∷ [])
In-last a [] = inl refl
In-last a (b ∷ l) = inr (In-last a l)

IsNodup-snoc : (a : ℕ) (l : List ℕ) → IsNodup l → NotIn a l → IsNodup (l ++ a ∷ [])
IsNodup-snoc a [] d n = (tt, tt)
IsNodup-snoc a (b ∷ l) d n = (NotIn-snoc l d.0 (λ e. n.0 (sym e)), IsNodup-snoc a l d.1 n.1)
  where
    NotIn-snoc : (l : List ℕ) → NotIn b l → b ≢ a → NotIn b (l ++ a ∷ [])
    NotIn-snoc [] n ne = (ne, tt)
    NotIn-snoc (k ∷ l) n ne = (n.0, NotIn-snoc l n.1 ne)

All-snoc : (P : ℕ → Type 0) (a : ℕ) (l : List ℕ) → All P l → P a → All P (l ++ a ∷ [])
All-snoc P a [] h p = (p, tt)
All-snoc P a (b ∷ l) h p = (h.0, All-snoc P a l h.1 p)

module _ (m : Memory) (l : List ℕ) (s : Shape m l) where
  pub unlinked : (a : ℕ) → m.owner a ≢ linked → NotIn a (m.head ∷ l)
  unlinked a h = All-NotIn m.owner linked a (m.head ∷ l) h s.linked_all

  pub tail-IsPublished : IsPublished m m.tail
  tail-IsPublished =
      ground (arith, In-All (λ a. m.owner a ≡ linked) m.tail (m.head ∷ l) s.linked_all s.tail_in)

  -- The node after the head is in the queue.
  pub next-IsPublished : (nx : ℕ) → Follows m m.head nx → IsPublished m nx
  next-IsPublished nx y =
      let i = In-next m.next m.head m.head nx m.head l s.chain (inl refl) y.2 y.1 in
      ground (arith, In-All (λ a. m.owner a ≡ linked) nx l s.linked_all.1 i)

  pub Shape-alloc :
      (t d node : ℕ)
      → m.owner node ≡ free
      → Shape
          (record m {
            value = update m.value node d;
            next = update m.next node 0;
            owner = update m.owner node (fresh t);
          })
          l
  Shape-alloc t d node fr = record {
    chain = Chain-update m.next m.head node 0 (m.head ∷ l) out s.chain;
    nodup = s.nodup;
    linked_all = All-update (λ c. c ≡ linked) m.owner node (fresh t) (m.head ∷ l) out s.linked_all;
    linked_only = λ a h. s.linked_only a (ground (arith, h));
    removed_next = λ a h. ground (arith, h, s.removed_next a);
    tail_in = s.tail_in;
  }
    where
      out : NotIn node (m.head ∷ l)
      out = unlinked node (λ h. ground (arith, fr, h))

  pub Shape-tail : (nx : ℕ) → In nx (m.head ∷ l) → Shape (record m { tail = nx }) l
  Shape-tail nx i = record {
    chain = s.chain;
    nodup = s.nodup;
    linked_all = s.linked_all;
    linked_only = s.linked_only;
    removed_next = s.removed_next;
    tail_in = i;
  }

  pub published_end : (a : ℕ) → IsPublished m a → m.next a ≡ 0 → In a (m.head ∷ l)
  published_end a p z = s.linked_only a (ground (arith, p, z, s.removed_next a))

  pub Shape-link :
      (t d node pt : ℕ)
      → IsNew m t d node
      → IsPublished m pt
      → m.next pt ≡ 0
      → Shape
          (record m { next = update m.next pt node; owner = update m.owner node linked })
          (l ++ node ∷ [])
  Shape-link t d node pt (o, nz, v, x) p z = record {
    chain =
        Chain-snoc m.next m.head pt node (m.head ∷ l) s.chain (published_end pt p z) s.nodup out nz
          z x;
    nodup = IsNodup-snoc node (m.head ∷ l) s.nodup out;
    linked_all =
        All-snoc (λ a. update m.owner node linked a ≡ linked) node (m.head ∷ l)
          (All-update (λ c. c ≡ linked) m.owner node linked (m.head ∷ l) out s.linked_all)
          (ground arith);
    linked_only = only;
    removed_next = λ a h. ground (arith, h, o, nz, s.removed_next a);
    tail_in = In-append m.tail (m.head ∷ l) (node ∷ []) s.tail_in;
  }
    where
      out : NotIn node (m.head ∷ l)
      out = unlinked node (λ h. ground (arith, o, h))

      only : (a : ℕ) → update m.owner node linked a ≡ linked → In a (m.head ∷ (l ++ node ∷ []))
      only a h = elim (ℕ_discrete node a) [
        | yes e ↦ subst (λ z. In z (m.head ∷ (l ++ node ∷ []))) e (In-last node (m.head ∷ l))
        | no ne ↦ In-append a (m.head ∷ l) (node ∷ []) (s.linked_only a (ground (arith, h, ne)))
      ]

-- The head goes, and the next node becomes the head.
module _ (m : Memory) (b : ℕ) (k : List ℕ) (s : Shape m (b ∷ k)) where
  Shape-drop :
      m.tail ≢ m.head → Shape (record m { head = b; owner = update m.owner m.head removed }) k
  Shape-drop past = record {
    chain = (refl, s.chain.2.1, s.chain.2.2);
    nodup = s.nodup.1;
    linked_all =
        All-update (λ c. c ≡ linked) m.owner m.head removed (b ∷ k) s.nodup.0 s.linked_all.1;
    linked_only = only;
    removed_next = λ a h. ground (arith, h, s.removed_next a, s.chain.2.0, s.chain.2.1);
    tail_in = elim (s.tail_in) [ inl e ↦ absurd (past e) | inr i ↦ i ];
  }
    where
      only : (a : ℕ) → update m.owner m.head removed a ≡ linked → In a (b ∷ k)
      only a h = elim (s.linked_only a (ground (arith, h))) [
        | inl e ↦ absurd (ground (arith, h, e))
        | inr i ↦ i
      ]

pub Shape-remove :
    (m : Memory) (l : List ℕ) (ph nx : ℕ)
    → Shape m l
    → m.head ≡ ph
    → Follows m ph nx
    → TailPast m ph
    → (k : List ℕ) × (l ≡ nx ∷ k)
      × Shape (record m { head = nx; owner = update m.owner ph removed }) k
Shape-remove m [] ph nx s h y past = absurd (ground (arith, s.chain.2, h, y.1, y.2))
Shape-remove m (b ∷ k) ph nx s h y past =
    let at : b ≡ nx = ground (arith, s.chain.2.0, h, y.2) in
    let ahead : m.tail ≢ m.head = λ e. ahead_of past e in
    (
      k,
      ap (λ z. z ∷ k) at,
      subst (λ z. Shape (record m { head = z; owner = update m.owner ph removed }) k) at
          (subst (λ z. Shape (record m { head = b; owner = update m.owner z removed }) k) h
            (Shape-drop m b k s ahead)),
    )
  where
    ahead_of : TailPast m ph → m.tail ≡ m.head → ⊥
    ahead_of (inl p) e = p.1 (e ∙ h)
    ahead_of (inr r) e = ground (arith, r, h, s.linked_all.0)
