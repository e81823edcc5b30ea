-- ===== src/Smr/Tests.antt =====
-- One thread with fifteen retired nodes, of which a hazard pointer names node 3: the next `delNode`
-- scans them.
use amino.Prelude.{
  length, ℕ, ℕ_discrete, ◌+◌, ◌≡◌, ◌<◌, refl, ◌⊎◌, true, false, List, [], ◌∷◌, arith, none, some,
  update, contains, times, IsNodup, map,
}
use amino.Smr.Record.{SmrNode, HpRec, entries, alloc_smr_node, free_data, free_smr_node}
use amino.Smr.Scan.{scan, nodes, gather, scan_node, scan_loop}
use amino.Smr.Scan.Laws.{IsValid, Held}
use amino.Smr.Scan.Safety.{scan_conserves, scan-IsValid}
use amino.Smr.Domain.{
  Smr, init_rec, init_smr, get_hp_rec, plist_of, plist_in_bounds, del_node, merge_list, help_scan,
  minimal_rlist_len, reclaim, retire_into,
}
use amino.Smr.Domain.Laws.{SmrIsValid, init_smr-IsValid, get_hp_rec-IsValid}
use amino.Smr.Domain.Merge.{merge_list_lem}
use amino.Smr.Domain.Help.{orphans, help_scan_lem}
use amino.Smr.Domain.Reclaim.{waiting, reusable, del_node_lem}
use amino.Smr.Domain.Bound.{del_node_bound}

abbrev fifteen : List SmrNode
fifteen =
    map (λ a. record { address = 100 + a; node = a })
      (15 ∷ 14 ∷ 13 ∷ 12 ∷ 11 ∷ 10 ∷ 9 ∷ 8 ∷ 7 ∷ 6 ∷ 5 ∷ 4 ∷ 3 ∷ 2 ∷ 1 ∷ [])

abbrev busy : HpRec
busy = record (init_rec 1) {
  hp = 3 ∷ [];
  active = true;
  rlist = fifteen;
  rcount = 15;
  nr_threads = 1;
}

abbrev busy_smr : Smr
busy_smr = record {
  recs = λ _. busy;
  order = 50 ∷ [];
  hp_count = 1;
  rh = minimal_rlist_len;
  mine = λ _. none;
}

busy-IsValid : IsValid busy
busy-IsValid = record {
  rcount_ok = refl;
  smr_ok = refl;
  smr_fits = omega arith;
  data_fits = omega arith;
}

busy_smr-IsValid : SmrIsValid 1 busy_smr
busy_smr-IsValid = record {
  counted = refl;
  head = refl;
  each = λ h c. (refl, busy-IsValid);
  owned = λ t h e. cc;
  apart = λ t u h e f. cc;
  limit = refl;
}

fourteen_freed : ((scan (3 ∷ []) busy).0.rcount ≡ 1) × ((scan (3 ∷ []) busy).0.fr_data_count ≡ 14)
unfolding scan scan_loop scan_node contains free_data free_smr_node
fourteen_freed = (refl, refl)

busy-IsNodup : IsNodup (nodes busy.rlist)
busy-IsNodup = omega arith

one_more-IsNodup : IsNodup (20 ∷ waiting busy)
one_more-IsNodup = omega arith

scan-IsValid_example : IsValid (scan (3 ∷ []) busy).0 × Held (3 ∷ []) (scan (3 ∷ []) busy).0.rlist
scan-IsValid_example = scan-IsValid (3 ∷ []) busy busy-IsValid

scan_conserves_example :
    let (q, deleted, smrs) = scan (3 ∷ []) busy in
    (times 3 (nodes q.rlist) + (times 3 (entries q.fr_data q.fr_data_count) + times 3 deleted)
      ≡ times 3 (nodes busy.rlist) + times 3 (entries busy.fr_data busy.fr_data_count))
    × ((contains 3 (3 ∷ []) ≡ false)
        ⊎ (times 3 (entries q.fr_data q.fr_data_count) + times 3 deleted
            ≡ times 3 (entries busy.fr_data busy.fr_data_count)))
scan_conserves_example = scan_conserves (3 ∷ []) busy 3

get_hp_rec-IsValid_example :
    let (h, q) = get_hp_rec 1 0 60 (init_smr 1) in
    SmrIsValid 1 q
    × (q.mine 0 ≡ some h)
    × ((q.recs h).active ≡ true)
    × (contains h q.order ≡ true)
    × ((u x : ℕ) → (init_smr 1).mine u ≡ some x → q.mine u ≡ some x)
unfolding contains
get_hp_rec-IsValid_example = get_hp_rec-IsValid 1 0 60 (init_smr 1) refl (init_smr-IsValid 1)

merge_list_lem_example :
    let (o, m) = merge_list busy (init_rec 1) in
    IsValid o
    × IsValid m
    × (o.rlist ≡ [])
    × (times 3 (nodes m.rlist) ≡ times 3 (nodes busy.rlist) + times 3 (nodes (init_rec 1).rlist))
merge_list_lem_example = merge_list_lem busy (init_rec 1) 3 busy-IsValid (omega arith)

del_node_lem_example :
    (deleted smrs : List ℕ) × (q : Smr) × (del_node 1 50 20 200 busy_smr ≡ some (deleted, smrs, q))
    × SmrIsValid 1 q
    × ((a : ℕ)
        → (times a (waiting (q.recs 50)) + (times a (reusable (q.recs 50)) + times a deleted)
            ≡ times a (20 ∷ waiting busy) + times a (reusable busy))
          × ((contains a (plist_of busy_smr) ≡ false)
              ⊎ (times a (reusable (q.recs 50)) + times a deleted ≡ times a (reusable busy))))
unfolding contains
del_node_lem_example = del_node_lem 1 50 20 200 busy_smr busy_smr-IsValid refl

-- The state that `delNode` of node 20 leads to.
abbrev deleted_20 : Smr
deleted_20 = record busy_smr {
  recs =
      update busy_smr.recs 50
        (scan (3 ∷ [])
          (record busy { rlist = record { address = 200; node = 20 } ∷ fifteen; rcount = 16 })).0;
}

del_node_bound_example : length (waiting (deleted_20.recs 50)) < 16
unfolding contains del_node alloc_smr_node reclaim retire_into plist_of gather plist_in_bounds
del_node_bound_example =
    del_node_bound 50 20 200 busy_smr deleted_20
      (scan (3 ∷ [])
        (record busy { rlist = record { address = 200; node = 20 } ∷ fifteen; rcount = 16 })).1
      (scan (3 ∷ [])
        (record busy { rlist = record { address = 200; node = 20 } ∷ fifteen; rcount = 16 })).2
      busy_smr-IsValid refl one_more-IsNodup refl

-- The thread of record 51 has left its fifteen nodes behind.
abbrev left_behind : ℕ → HpRec
left_behind =
    update (λ _. record busy { active = false }) 50 (record (init_rec 1) { active = true })

help_scan_lem_example :
    (times 3 (nodes (help_scan 50 (51 ∷ 50 ∷ []) left_behind 50).rlist)
      ≡ times 3 (nodes (left_behind 50).rlist) + orphans 3 (51 ∷ 50 ∷ []) left_behind)
    × (orphans 3 (51 ∷ 50 ∷ []) (help_scan 50 (51 ∷ 50 ∷ []) left_behind) ≡ 0)
unfolding ℕ_discrete
help_scan_lem_example =
    help_scan_lem 3 50 (51 ∷ 50 ∷ []) left_behind refl ((omega arith, tt), (tt, tt))
