-- ===== src/Ordered/Update.antt =====
-- include/amino/ordered_list.h, `add`, `remove` and `search`: each of their steps is good.
use amino.Prelude.{
  ℕ, suc, Bool, true, false, ◌≡◌, ◌≢◌, ◌<◌, ◌⊎◌, inl, inr, refl, sym, ◌∙◌, ap, subst, List, arith,
  contains, NotIn, update, All-update, All-NotIn, ℕ_discrete,
}
use amino.Queue.Invariant.{In}
use amino.Ordered.Memory.{fresh, linked, Memory, Points, added, removed, idle, remove_cut}
use amino.Ordered.System.{delete}
use amino.Ordered.Splice.{Splice, Splice-at, Linked-in, Rising-in, All-in, In-In, In-new}
use amino.Ordered.Live.{rank, rank_node, present, live, live-in, live-mark}
use amino.Ordered.Invariant.{contents, IsPublished, IsNew, IsPrev, IsBeyond, IsSound}
use amino.Ordered.Good.{Good, absent_between, node_nonzero, rank-IsPrev, In-unmarked, prev_old}

module _ (saw : ℕ → ℕ → Bool → Type 0) {m : Memory} (t : ℕ) (l : List ℕ) (s : IsSound m l) where
  -- The new node is linked behind `prev`.
  module _ (d node prev cur : ℕ) (new : IsNew m t d node) (p : IsPrev m d prev)
      (b : IsBeyond m d cur) (to : m.next node ≡ cur) (at : Points m prev cur) where
    abbrev pub joined : Memory
    joined = record m { next = update m.next prev node; owner = update m.owner node linked }

    other : prev ≢ node
    other = prev_old s d prev p t node new.0

    bound : IsBeyond m d cur → (cur ≡ 0) ⊎ (d < m.key cur)
    bound (inl z) = inl z
    bound (inr q) = inr q.1

    out : NotIn node l
    out = All-NotIn m.owner linked node l (λ h. ground (arith, h, new.0)) s.all

    ranked : rank m.key node ≡ suc d
    ranked = rank_node m.key node new.1 ∙ ap suc new.2

    next_rank : (m.next prev ≡ 0) ⊎ (rank m.key node < rank m.key (m.next prev))
    next_rank = above b
      where
        above : IsBeyond m d cur → (m.next prev ≡ 0) ⊎ (rank m.key node < rank m.key (m.next prev))
        above (inl z) = inl (at.0 ∙ z)
        above (inr q) = inr (
            omega (
              arith,
              ranked,
              q.1,
              ap (rank m.key) at.0,
              rank_node m.key cur (node_nonzero s cur q.0),
            ))

    sound : (l' : List ℕ) → Splice prev node 0 l l' → IsSound joined l'
    sound l' sp = record {
      chain =
          Linked-in (rank m.key) m.next prev node 0 l l' sp s.chain s.rising other (to ∙ sym at.0);
      rising =
          Rising-in (rank m.key) m.next prev node 0 l l' sp s.chain s.rising refl
            (subst (λ z. rank m.key prev < z) (sym ranked) (rank-IsPrev s d prev p)) next_rank;
      all =
          All-in (λ a. update m.owner node linked a ≡ linked) sp
            (All-update (λ o. o ≡ linked) m.owner node linked l out s.all) (ground arith);
      live_in = λ a q k. live_in a q k (ℕ_discrete a node);
      null = ground (arith, s.null, new.1);
      head = s.head;
      linked_in = λ a h. linked_in a h (ℕ_discrete a node);
    }
      where
        live_in : (a : ℕ) → IsPublished joined a → m.marked a ≡ false → Dec (a ≡ node) → In a l'
        live_in a q k (yes e) = subst (λ z. In z l') (sym e) (In-new sp)
        live_in a q k (no ne) = In-In a sp (s.live_in a (ground (arith, q, ne)) k)

        linked_in : (a : ℕ) → update m.owner node linked a ≡ linked → Dec (a ≡ node) → In a l'
        linked_in a h (yes e) = subst (λ z. In z l') (sym e) (In-new sp)
        linked_in a h (no ne) = In-In a sp (s.linked_in a (ground (arith, h, ne)))

    pub adds : Good saw m joined t idle l (added d)
    adds =
        let (l', sp) = Splice-at prev node 0 l (In-unmarked s d prev p at.1) in
        record {
          grows = record {
            mine = λ j a ne o.
                (theirs j a ne o, refl, refl, ground (arith, prev_old s d prev p j a o));
            published = λ a q. (ground (arith, q, new.0), refl);
            gone = λ a r. ground (arith, r, new.0);
            dead = λ a q k. (k, ground (arith, k, at.1));
          };
          after = l';
          sound = sound l' sp;
          spec = (
            absent_between s d prev cur p at.1 at.0 (bound b),
            live-in m.marked m.key m.next prev d (rank-IsPrev s d prev p) next_key node 0 l l' sp
                s.chain s.rising new.3 new.2,
          );
          own = λ saw' now later. tt;
        }
      where
        theirs : (j a : ℕ) → j ≢ t → m.owner a ≡ fresh j → update m.owner node linked a ≡ fresh j
        theirs j a ne o = ground (arith, o, new.0, ne)

        next_key : (m.next prev ≡ 0) ⊎ (d < m.key (m.next prev))
        next_key = bound_next b
          where
            bound_next : IsBeyond m d cur → (m.next prev ≡ 0) ⊎ (d < m.key (m.next prev))
            bound_next (inl z) = inl (at.0 ∙ z)
            bound_next (inr q) = inr (subst (λ y. d < m.key y) (sym (at.0)) q.1)

  -- A node is marked: its key leaves the set.
  pub marks :
      (d prev cur nx : ℕ)
      → IsPrev m d prev
      → IsPublished m cur
      → m.key cur ≡ d
      → Points m cur nx
      → Good saw m
          (record m { marked = update m.marked cur true })
          t
          (remove_cut d prev cur nx)
          l
          (removed d)
  marks d prev cur nx p c k at = record {
    grows = record {
      mine = λ j a ne o. (o, refl, ground (arith, o, c), refl);
      published = λ a q. (q, refl);
      gone = λ a r. r;
      dead = λ a q y. (ground (arith, y), refl);
    };
    after = l;
    sound = record {
      chain = s.chain;
      rising = s.rising;
      all = s.all;
      live_in = λ a q y. s.live_in a q (ground (arith, y));
      null = s.null;
      head = ground (arith, s.head, node_nonzero s cur c);
      linked_in = s.linked_in;
    };
    spec = (
      subst (λ z. contains z (contents m l) ≡ true) k (present m.marked m.key cur l here at.1),
      subst (λ z. live (update m.marked cur true) m.key l ≡ delete z (contents m l)) k
          (live-mark m.marked m.key cur 0 l here s.rising at.1),
    );
    own = λ saw' now later. (p, c, (ground arith, at.0));
  }
    where
      here : In cur l
      here = s.live_in cur c at.1
