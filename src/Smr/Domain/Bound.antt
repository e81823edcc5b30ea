-- ===== src/Smr/Domain/Bound.antt =====
-- include/amino/smr.h: how long the retired list of a thread gets, with one hazard pointer per thread.
use amino.Prelude.{
  ℕ, ◌≡◌, ◌<◌, refl, true, List, [], ◌∷◌, arith, some, update, length, contains, IsNodup,
  update-elim, subst, ap, sym,
}
use amino.Smr.Record.{HpRec}
use amino.Smr.Scan.{nodes}
use amino.Smr.Domain.{Smr, plist_of, retire_into, reclaim, del_node}
use amino.Smr.Domain.Laws.{plist_in_bounds_lem, SmrIsValid, length-gather}
use amino.Smr.Domain.Reclaim.{waiting, alloc_smr_node_total, retired-IsValid, reclaim_short}

plist-lt-rh : (s : Smr) → SmrIsValid 1 s → length (plist_of s) < s.rh
unfolding plist_of
plist-lt-rh s v =
    ground (arith, v.limit, v.counted, length-gather 1 s.recs s.order [] (λ x c. (v.each x c).0))

retired_nodes :
    (node address : ℕ) (r r0 : HpRec)
    → r.rlist ≡ r0.rlist
    → node ∷ waiting r0 ≡ waiting (retire_into node address r)
unfolding retire_into
retired_nodes node address r r0 e = ap (λ l. node ∷ nodes l) (sym e)

-- For valid records with one hazard pointer per thread, by a thread whose record `h` is in the list, and when the node
-- that is deleted and those in the retired list are distinct: `delNode`, which by del_node_lem returns, leaves fewer
-- than `RH` nodes in the retired list of its thread.
pub del_node_bound :
    (h node heap : ℕ) (s q : Smr) (deleted smrs : List ℕ)
    → SmrIsValid 1 s
    → contains h s.order ≡ true
    → IsNodup (node ∷ waiting (s.recs h))
    → del_node 1 h node heap s ≡ some (deleted, smrs, q)
    → length (waiting (q.recs h)) < q.rh
unfolding del_node
del_node_bound h node heap s q deleted smrs v at once e =
    let (address, r, alloc, taken) =
      alloc_smr_node_total heap (s.recs h) (s.recs h).fr_smr refl (v.each h at).1 in
    let r1 = retire_into node address r in
    let p = (reclaim (plist_of s) s.rh r1).0 in
    let done : record s { recs = update s.recs h p } ≡ q =
      ground (arith, (rw (alloc, del_node, plist_in_bounds_lem 1 s v) at e)) in
    let short =
      reclaim_short (plist_of s) s.rh r1 (retired-IsValid node address r taken.0)
        (subst IsNodup (retired_nodes node address r (s.recs h) taken.1) once) (plist-lt-rh s v) in
    subst (λ z. length (waiting (z.recs h)) < z.rh) done
      (update-elim (λ z. length (waiting z) < s.rh) s.recs h p h (λ _. short)
        (λ ne. absurd (ne refl)))
