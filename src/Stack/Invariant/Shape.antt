-- ===== src/Stack/Invariant/Shape.antt =====
-- The list of linked nodes under the writes that the threads make.
use amino.Prelude.{
  ℕ, ◌≡◌, ◌≢◌, List, [], ◌∷◌, arith, NotIn, update, All-update, All-NotIn, subst, sym,
}
use amino.Stack.Memory.{Owner, linked, Memory, Pc, Event}
use amino.Stack.Spec.{Spec}
use amino.Stack.Invariant.Defs.{Chain, IsFine, Shape, contents}
use amino.Stack.Invariant.Moves.{Spares}

-- What is shown of one step.
pub record Good (n : ℕ) (m m' : Memory) (pc : ℕ → Pc) (t : ℕ) (p' : Pc) (l : List ℕ) (e : Event)
    : Type 0 where
  pub spares : Spares n m m' pc t (pc t) p'
  pub own : IsFine n m' (update pc t p') t p'
  pub after : List ℕ
  pub shape : Shape m' after
  pub spec : Spec e (contents m l) (contents m' after)

Chain-update :
    (f : ℕ → ℕ) (p a v : ℕ) (l : List ℕ) → NotIn a l → Chain f p l → Chain (update f a v) p l
Chain-update f p a v [] n c = c
Chain-update f p a v (b ∷ l) n c =
    (c.0, c.1, ground (arith, n.0, Chain-update f (f b) a v l n.1 c.2))

pub unlinked : (m : Memory) (l : List ℕ) (a : ℕ) → Shape m l → m.owner a ≢ linked → NotIn a l
unlinked m l a s h = All-NotIn m.owner linked a l h s.owned

-- Writes to the fields and the use of a node outside the list.
pub Shape-write :
    (m : Memory) (l : List ℕ) (a d x : ℕ) (o : Owner)
    → m.owner a ≢ linked
    → Shape m l
    → Shape
        (record m {
          value = update m.value a d;
          next = update m.next a x;
          owner = update m.owner a o;
        })
        l
Shape-write m l a d x o h s = record {
  chain = Chain-update m.next m.top a x l out s.chain;
  nodup = s.nodup;
  owned = All-update (λ c. c ≡ linked) m.owner a o l out s.owned;
}
  where
    out : NotIn a l
    out = unlinked m l a s h

pub Shape-owner :
    (m : Memory) (l : List ℕ) (a : ℕ) (o : Owner)
    → m.owner a ≢ linked
    → Shape m l
    → Shape (record m { owner = update m.owner a o }) l
Shape-owner m l a o h s = record {
  chain = s.chain;
  nodup = s.nodup;
  owned = All-update (λ c. c ≡ linked) m.owner a o l (unlinked m l a s h) s.owned;
}

pub Shape-next :
    (m : Memory) (l : List ℕ) (a x : ℕ)
    → m.owner a ≢ linked
    → Shape m l
    → Shape (record m { next = update m.next a x }) l
Shape-next m l a x h s = record {
  chain = Chain-update m.next m.top a x l (unlinked m l a s h) s.chain;
  nodup = s.nodup;
  owned = s.owned;
}

pub Shape-push :
    (m : Memory) (l : List ℕ) (a : ℕ)
    → m.owner a ≢ linked
    → a ≢ 0
    → m.next a ≡ m.top
    → Shape m l
    → Shape (record m { top = a; owner = update m.owner a linked }) (a ∷ l)
Shape-push m l a h nz e s = record {
  chain = (ground arith, nz, subst (λ p. Chain m.next p l) (sym e) s.chain);
  nodup = (unlinked m l a s h, s.nodup);
  owned =
      (ground arith, All-update (λ c. c ≡ linked) m.owner a linked l (unlinked m l a s h) s.owned);
}

pub Shape-pop :
    (m : Memory) (l : List ℕ) (a b : ℕ) (o : Owner)
    → Shape m (b ∷ l)
    → m.top ≡ a
    → Shape (record m { top = m.next a; owner = update m.owner a o }) l
Shape-pop m l a b o s e = record {
  chain = ground (arith, s.chain.0, s.chain.2);
  nodup = s.nodup.1;
  owned =
      All-update (λ c. c ≡ linked) m.owner a o l (ground (arith, s.chain.0, s.nodup.0)) s.owned.1;
}
