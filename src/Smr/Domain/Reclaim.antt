-- ===== src/Smr/Domain/Reclaim.antt =====
-- include/amino/smr.h: `delNode`.
use amino.Prelude.{
  ℕ, ◌+◌, ◌≡◌, ◌<◌, refl, ◌⊎◌, inl, inr, true, false, List, [], ◌∷◌, arith, some, leb, update,
  length, contains, times, IsNodup, Bool-cases, update-elim, subst, ◌-◌, ap, ◌∙◌, sym,
}
use amino.Smr.Record.{HpRec, alloc_smr_node, entries}
use amino.Smr.Scan.{nodes}
use amino.Smr.Scan.Laws.{IsValid, SameHead, scan-SameHead}
use amino.Smr.Scan.Safety.{scan_conserves, scan-IsValid, scan_bound, length-nodes}
use amino.Smr.Domain.{Smr, plist_of, retire_into, reclaim, del_node}
use amino.Smr.Domain.Laws.{plist_in_bounds_lem, SmrIsValid, RecIsValid, HeadCounts}

-- The retired and the reusable nodes of a record.
abbrev pub waiting : HpRec → List ℕ
waiting r = nodes r.rlist

abbrev pub reusable : HpRec → List ℕ
reusable r = entries r.fr_data r.fr_data_count

-- What an SMR node taken from the free list or from the heap leaves of the record.
abbrev pub Taken : HpRec → HpRec → Type 0
Taken r q =
    IsValid q
    × (q.rlist ≡ r.rlist)
    × (q.fr_data ≡ r.fr_data)
    × (q.fr_data_count ≡ r.fr_data_count)
    × (q.hp ≡ r.hp)
    × (q.nr_threads ≡ r.nr_threads)
    × (q.active ≡ r.active)

pub alloc_smr_node_total :
    (heap : ℕ) (r : HpRec) (l : List ℕ)
    → r.fr_smr ≡ l
    → IsValid r
    → (a : ℕ) × (q : HpRec) × (alloc_smr_node heap r ≡ some (a, q)) × Taken r q
unfolding alloc_smr_node
alloc_smr_node_total heap r [] e v =
    (heap, r, ground arith, (v, refl, refl, refl, refl, refl, refl))
alloc_smr_node_total heap r (x ∷ l) e v = (
  x,
  record r { fr_smr = l; fr_smr_count = r.fr_smr_count - 1 },
  ground arith,
  (
    record {
      rcount_ok = v.rcount_ok;
      smr_ok = ground (arith, v.smr_ok);
      smr_fits = omega (arith, v.smr_fits);
      data_fits = v.data_fits;
    },
    refl,
    refl,
    refl,
    refl,
    refl,
    refl,
  ),
)

-- The record after the node has been put into its retired list.
pub retired-IsValid : (node a : ℕ) (q : HpRec) → IsValid q → IsValid (retire_into node a q)
unfolding retire_into
retired-IsValid node a q v = record {
  rcount_ok = omega (arith, v.rcount_ok);
  smr_ok = v.smr_ok;
  smr_fits = v.smr_fits;
  data_fits = v.data_fits;
}

-- The places of a node after a call that began with the record `r`.
abbrev pub Accounted : List ℕ → HpRec → HpRec → List ℕ → ℕ → Type 0
Accounted plist r q deleted a =
    (times a (waiting q) + (times a (reusable q) + times a deleted)
      ≡ times a (waiting r) + times a (reusable r))
    × ((contains a plist ≡ false) ⊎ (times a (reusable q) + times a deleted ≡ times a (reusable r)))

reclaim-Accounted :
    (plist : List ℕ) (rh : ℕ) (r : HpRec) (a : ℕ)
    → Accounted plist r (reclaim plist rh r).0 (reclaim plist rh r).1 a
unfolding reclaim
reclaim-Accounted plist rh r a = elim (Bool-cases (leb rh r.rcount)) [
  | inl full ↦ rw full (scan_conserves plist r a)
  | inr room ↦ rw room (omega arith, inr (omega arith))
]

reclaim-IsValid :
    (plist : List ℕ) (rh : ℕ) (r : HpRec)
    → IsValid r
    → IsValid (reclaim plist rh r).0 × SameHead (reclaim plist rh r).0 r
unfolding reclaim
reclaim-IsValid plist rh r v = elim (Bool-cases (leb rh r.rcount)) [
  | inl full ↦ rw full ((scan-IsValid plist r v).0, scan-SameHead plist r)
  | inr room ↦ rw room (v, (refl, refl, refl))
]

reclaim_count :
    (plist : List ℕ) (rh : ℕ) (r : HpRec)
    → IsValid r
    → IsNodup (waiting r)
    → length plist < rh
    → (reclaim plist rh r).0.rcount < rh
unfolding reclaim
reclaim_count plist rh r v n h = elim (Bool-cases (leb rh r.rcount)) [
  | inl full ↦ rw full (omega (arith, (scan_bound plist r v n).1))
  | inr room ↦ rw room (ground arith)
]

-- The nodes themselves, which the count tells.
pub reclaim_short :
    (plist : List ℕ) (rh : ℕ) (r : HpRec)
    → IsValid r
    → IsNodup (waiting r)
    → length plist < rh
    → length (waiting (reclaim plist rh r).0) < rh
reclaim_short plist rh r v n h =
    let kept = (reclaim-IsValid plist rh r v).0 in
    omega (
      arith,
      reclaim_count plist rh r v n h,
      kept.rcount_ok,
      length-nodes (reclaim plist rh r).0.rlist,
    )

HeadCounts-update :
    (recs : ℕ → HpRec) (l : List ℕ) (h n : ℕ) (r : HpRec)
    → r.nr_threads ≡ (recs h).nr_threads
    → HeadCounts recs l n
    → HeadCounts (update recs h r) l n
HeadCounts-update recs [] h n r e c = tt
HeadCounts-update recs (x ∷ l) h n r e c = ground arith

put_back :
    (k h : ℕ) (s : Smr) (r : HpRec)
    → contains h s.order ≡ true
    → IsValid r
    → SameHead r (s.recs h)
    → SmrIsValid k s
    → SmrIsValid k (record s { recs = update s.recs h r })
put_back k h s r at valid same v = record {
  counted = v.counted;
  head = HeadCounts-update s.recs s.order h s.hp_count r same.1 v.head;
  each = λ x c.
      update-elim (RecIsValid k) s.recs h r x (λ e. (ap length same.0 ∙ (v.each h at).0, valid))
        (λ ne. v.each x c);
  owned = λ t x e. (
    (v.owned t x e).0,
    update-elim (λ q. q.active ≡ true) s.recs h r x
        (λ same_rec.
          same.2 ∙ subst (λ y. (s.recs y).active ≡ true) (sym same_rec) (v.owned t x e).1)
        (λ ne. (v.owned t x e).1),
  );
  apart = v.apart;
  limit = v.limit;
}

-- The same, seen from the record before an SMR node was taken.
Taken-Accounted :
    (plist : List ℕ) (rh node address a : ℕ) (r q : HpRec)
    → Taken r q
    → let (p, deleted, smrs) = reclaim plist rh (retire_into node address q) in
      (times a (waiting p) + (times a (reusable p) + times a deleted)
        ≡ times a (node ∷ waiting r) + times a (reusable r))
      × ((contains a plist ≡ false)
          ⊎ (times a (reusable p) + times a deleted ≡ times a (reusable r)))
unfolding retire_into
Taken-Accounted plist rh node address a r q t =
    let same_list = ap (λ l. times a (nodes l)) t.1 in
    let same_data : times a (reusable q) ≡ times a (reusable r) = rw (t.2, t.3) refl in
    ground (arith, same_list, same_data, reclaim-Accounted plist rh (retire_into node address q) a)

-- `delNode` of a node by a thread whose record `h` is in the list of valid records: no assertion fails, neither
-- that of `allocSMRNode` nor that of `scan` on the size of plist, all
-- records stay valid, and of every node the retired list and the free list of the record and what
-- was deleted hold together as many as the two lists held before, and `node` once more; a node
-- that some hazard pointer names is neither reused nor deleted.
pub del_node_lem :
    (k h node heap : ℕ) (s : Smr)
    → SmrIsValid k s
    → contains h s.order ≡ true
    → (deleted smrs : List ℕ) × (q : Smr) × (del_node k h node heap s ≡ some (deleted, smrs, q))
      × SmrIsValid k q
      × ((a : ℕ)
          → (times a (waiting (q.recs h)) + (times a (reusable (q.recs h)) + times a deleted)
              ≡ times a (node ∷ waiting (s.recs h)) + times a (reusable (s.recs h)))
            × ((contains a (plist_of s) ≡ false)
                ⊎ (times a (reusable (q.recs h)) + times a deleted
                    ≡ times a (reusable (s.recs h)))))
unfolding del_node retire_into
del_node_lem k h node heap s v at =
    let (address, r, alloc, taken) =
      alloc_smr_node_total heap (s.recs h) (s.recs h).fr_smr refl (v.each h at).1 in
    let r1 = retire_into node address r in
    let p = (reclaim (plist_of s) s.rh r1).0 in
    let deleted = (reclaim (plist_of s) s.rh r1).1 in
    let (valid, same) =
      reclaim-IsValid (plist_of s) s.rh r1 (retired-IsValid node address r taken.0) in
    (
      deleted,
      (reclaim (plist_of s) s.rh r1).2,
      record s { recs = update s.recs h p },
      rw (alloc, del_node, plist_in_bounds_lem k s v) (ground arith),
      put_back k h s p at valid (same.0 ∙ taken.4, same.1 ∙ taken.5, same.2 ∙ taken.6) v,
      λ a.
          update-elim
            (λ q.
              (times a (waiting q) + (times a (reusable q) + times a deleted)
                ≡ times a (node ∷ waiting (s.recs h)) + times a (reusable (s.recs h)))
              × ((contains a (plist_of s) ≡ false)
                  ⊎ (times a (reusable q) + times a deleted ≡ times a (reusable (s.recs h)))))
            s.recs h p h (λ _. Taken-Accounted (plist_of s) s.rh node address a (s.recs h) r taken)
            (λ ne. absurd (ne refl)),
    )
