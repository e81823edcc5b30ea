-- ===== src/Ordered/Cut.antt =====
-- include/amino/ordered_list.h: a removed node is taken out of the list, in `find` or in `remove`.
use amino.Prelude.{
  ℕ, Bool, true, false, ◌≡◌, ◌≢◌, inl, inr, refl, ap, subst, List, arith, contains, update,
  All-update,
}
use amino.Queue.Invariant.{In}
use amino.Ordered.Memory.{
  linked, unlinked, Memory, Points, Goal, inserting, removing, searching, cleaning, silent, Pc,
}
use amino.Ordered.Splice.{
  Linked, Splice, Splice-out, Linked-out, Rising-out, All-out, In-out, NotIn-gone,
}
use amino.Ordered.Live.{rank, live-out}
use amino.Ordered.Invariant.{
  contents, IsPublished, Old, IsPrev, IsDead, IsFineGoal, IsFine, IsSound,
}
use amino.Ordered.Grows.{Grows}
use amino.Ordered.Good.{Good, next-Old, pointed-In, node_nonzero, In-unmarked, prev_old}

-- The memory after the cell `prev` was moved past the node `cur`.
abbrev pub cut : (prev cur next : ℕ) → Memory → Memory
cut prev cur next m = record m {
  next = update m.next prev next;
  owner = update m.owner cur unlinked;
}

module _ {m : Memory} {l : List ℕ} (s : IsSound m l) (d prev cur nx : ℕ) (p : IsPrev m d prev)
    (at : Points m prev cur) (c : IsPublished m cur) (x : IsDead m cur nx) where
  spliced : (l' : List ℕ) × Splice prev cur 0 l' l
  spliced =
      Splice-out m.next prev cur 0 l s.chain (In-unmarked s d prev p at.1) at.0
        (node_nonzero s cur c)

  prev_other : (a : ℕ) → m.marked a ≡ true → prev ≢ a
  prev_other a k e = ground (arith, at.1, k, ap m.marked e)

  IsSound-cut : (l' : List ℕ) → Splice prev cur 0 l' l → IsSound (cut prev cur nx m) l'
  IsSound-cut l' sp = record {
    chain =
        subst (λ z. Linked (update m.next prev z) 0 l') x.1
          (Linked-out (rank m.key) m.next prev cur 0 l l' sp s.chain s.rising);
    rising = Rising-out (rank m.key) m.next prev cur 0 l l' sp s.rising;
    all =
        All-update (λ o. o ≡ linked) m.owner cur unlinked l'
          (NotIn-gone (rank m.key) prev cur 0 l l' sp s.rising)
          (All-out (λ a. m.owner a ≡ linked) sp s.all);
    live_in = λ a q k. still a q k;
    null = ground (arith, s.null, node_nonzero s cur c);
    head = s.head;
    linked_in = λ a h. stays a h;
  }
    where
      still : (a : ℕ) → IsPublished (cut prev cur nx m) a → m.marked a ≡ false → In a l'
      still a q k =
          let ne : a ≢ cur = λ e. ground (arith, k, x.0, ap m.marked e) in
          In-out a sp (s.live_in a (ground (arith, q, ne)) k) ne

      stays : (a : ℕ) → update m.owner cur unlinked a ≡ linked → In a l'
      stays a h = In-out a sp (s.linked_in a (ground (arith, h))) (λ e. ground (arith, h, e))

  Grows-cut : (t : ℕ) → Grows m (cut prev cur nx m) t
  Grows-cut t = record {
    mine =
        λ j a ne o. (ground (arith, o, c), refl, refl, ground (arith, prev_old s d prev p j a o));
    published = λ a q. (ground (arith, q), refl);
    gone = λ a r. ground (arith, r);
    dead = λ a q k. (k, ground (arith, prev_other a k));
  }

  IsPublished-cut : (a : ℕ) → IsPublished m a → IsPublished (cut prev cur nx m) a
  IsPublished-cut a q = ground (arith, q)

  pub IsPrev-cut : IsPrev (cut prev cur nx m) d prev
  IsPrev-cut = kept p
    where
      kept : IsPrev m d prev → IsPrev (cut prev cur nx m) d prev
      kept (inl z) = inl z
      kept (inr q) = inr (IsPublished-cut prev q.0, q.1)

  pub Old-cut : Old (cut prev cur nx m) nx
  Old-cut = kept (subst (λ z. Old m z) x.1 (next-Old s cur (inr (pointed-In s d prev cur p at c))))
    where
      kept : Old m nx → Old (cut prev cur nx m) nx
      kept (inl z) = inl z
      kept (inr q) = inr (IsPublished-cut nx q)

  pub Goal-cut : (t : ℕ) (g : Goal) → IsFineGoal m t g → IsFineGoal (cut prev cur nx m) t g
  Goal-cut t (inserting k node) (o, nz, e, u) = (ground (arith, o, c), nz, e, u)
  Goal-cut t (removing k) f = tt
  Goal-cut t (searching k) f = tt
  Goal-cut t (cleaning k) f = tt

  -- The step, for any place where the thread goes on.
  pub cuts :
      (saw : ℕ → ℕ → Bool → Type 0) (t : ℕ) (p' : Pc)
      → ((l' : List ℕ)
          → IsSound (cut prev cur nx m) l'
          → (saw' : ℕ → ℕ → Bool → Type 0)
          → ((k : ℕ) (b : Bool) → contains k (contents (cut prev cur nx m) l') ≡ b → saw' t k b)
          → IsFine (cut prev cur nx m) saw' t p')
      → Good saw m (cut prev cur nx m) t p' l silent
  cuts saw t p' own =
      let (l', sp) = spliced in
      let s' = IsSound-cut l' sp in
      record {
        grows = Grows-cut t;
        after = l';
        sound = s';
        spec = live-out m.marked m.key prev cur 0 l l' sp x.0;
        own = λ saw' now later. own l' s' saw' now;
      }
