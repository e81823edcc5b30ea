-- ===== src/Ordered/Alloc.antt =====
-- include/amino/ordered_list.h: the new node of `add`, before it is linked.
use amino.Prelude.{
  ℕ, zero, suc, Bool, false, ◌≡◌, ◌≢◌, refl, List, [], ◌∷◌, arith, All, NotIn, update, All-update,
  All-NotIn,
}
use amino.Ordered.Memory.{
  free, fresh, linked, Memory, silent, called, find_load, inserting, add_cas,
}
use amino.Ordered.Splice.{Linked-update, Rising-cong}
use amino.Ordered.Live.{rank, live-cong}
use amino.Ordered.Invariant.{IsNew, IsPrev, IsBeyond, IsSound, is_published}
use amino.Ordered.Good.{Good}

module _ (saw : ℕ → ℕ → Bool → Type 0) {m : Memory} (t : ℕ) (l : List ℕ) (s : IsSound m l) where
  module _ (node : ℕ) (unseen : is_published (m.owner node) ≡ false) (nz : node ≢ 0) where
    out : NotIn node l
    out = All-NotIn m.owner linked node l (λ h. ground (arith, h, unseen)) s.all

    ranks_agree :
        (d : ℕ) (k : List ℕ)
        → NotIn node k
        → All (λ a. rank (update m.key node d) a ≡ rank m.key a) k
    ranks_agree d [] n = tt
    ranks_agree d (a ∷ k) n = (same a n.0, ranks_agree d k n.1)
      where
        same : (a : ℕ) → node ≢ a → rank (update m.key node d) a ≡ rank m.key a
        same zero ne = refl
        same (suc a) ne = ground (arith, ne)

    keys_agree :
        (d : ℕ) (k : List ℕ)
        → NotIn node k
        → All
            (λ a. (update m.marked node false a ≡ m.marked a) × (update m.key node d a ≡ m.key a))
            k
    keys_agree d [] n = tt
    keys_agree d (a ∷ k) n = ((ground (arith, n.0), ground (arith, n.0)), keys_agree d k n.1)

    pub stores :
        (d prev cur : ℕ)
        → IsNew m t d node
        → IsPrev m d prev
        → IsBeyond m d cur
        → Good saw m
            (record m { next = update m.next node cur })
            t
            (add_cas d node prev cur)
            l
            silent
    stores d prev cur new p b = record {
      grows = record {
        mine = λ j a ne o. (o, refl, refl, ground (arith, o, new.0, ne));
        published = λ a q. (q, refl);
        gone = λ a r. r;
        dead = λ a q k. (k, ground (arith, q, unseen));
      };
      after = l;
      sound = record {
        chain = Linked-update m.next node cur 0 l nz out s.chain;
        rising = s.rising;
        all = s.all;
        live_in = s.live_in;
        null = s.null;
        head = s.head;
        linked_in = s.linked_in;
      };
      spec = refl;
      own = λ saw' now later. (new, p, b, ground arith);
    }

  pub allocates :
      (d node : ℕ)
      → node ≢ 0
      → m.owner node ≡ free
      → Good saw m
          (record m {
            key = update m.key node d;
            next = update m.next node 0;
            marked = update m.marked node false;
            owner = update m.owner node (fresh t);
          })
          t
          (find_load (inserting d node))
          l
          (called t)
  allocates d node nz fr = record {
    grows = record {
      mine = λ j a ne o. (
        ground (arith, o, fr),
        ground (arith, o, fr),
        ground (arith, o, fr),
        ground (arith, o, fr),
      );
      published = λ a q. (ground (arith, q, fr), ground (arith, q, fr));
      gone = λ a r. ground (arith, r, fr);
      dead = λ a q k. (ground (arith, q, fr, k), ground (arith, q, fr));
    };
    after = l;
    sound = record {
      chain = Linked-update m.next node 0 0 l nz (out node unseen nz) s.chain;
      rising =
          Rising-cong (rank m.key) (rank (update m.key node d)) 0 l refl
            (ranks_agree node unseen nz d l (out node unseen nz)) s.rising;
      all = All-update (λ o. o ≡ linked) m.owner node (fresh t) l (out node unseen nz) s.all;
      live_in = λ a q k. s.live_in a (ground (arith, q)) (ground (arith, q, k));
      null = ground (arith, s.null, nz);
      head = ground (arith, s.head, nz);
      linked_in = λ a h. s.linked_in a (ground (arith, h));
    };
    spec =
        live-cong m.marked m.key (update m.marked node false) (update m.key node d) l
          (keys_agree node unseen nz d l (out node unseen nz));
    own = λ saw' now later. (ground arith, nz, ground arith, ground arith);
  }
    where
      unseen : is_published (m.owner node) ≡ false
      unseen = ground (arith, fr)
