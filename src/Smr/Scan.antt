-- ===== src/Smr/Scan.antt =====
-- include/amino/smr.h: `scan` frees the retired nodes of a thread that no hazard pointer names.
pub mod Laws
pub mod Safety
use amino.Prelude.{
  ℕ, suc, ◌+◌, ◌≡◌, Bool, true, false, List, [], ◌∷◌, ◌++◌, ◌==◌, if◌then◌else◌, contains, map,
}
use amino.Smr.Record.{SmrNode, HpRec, free_data, free_smr_node}

-- Stage 1: the hazard pointers of one record that are not NULL, in front of those found before.
abbrev pub gather_hp : List ℕ → List ℕ → List ℕ
gather_hp [] plist = plist
gather_hp (x ∷ xs) plist = gather_hp xs (if x == 0 then plist else x ∷ plist)

unfoldable pub gather : List HpRec → List ℕ → List ℕ
gather [] plist = plist
gather (r ∷ rs) plist = gather rs (gather_hp r.hp plist)

-- The variables of the loop of stage 2, and what it has deleted.
pub record Progress : Type 0 where
  pub rec : HpRec
  pub tmp_list : List SmrNode
  pub nrcount : ℕ
  pub deleted : List ℕ
  pub deleted_smr : List ℕ

-- One round. plist is sorted and made unique before it is searched, which tells whether the node
-- stands in it.
unfoldable pub scan_node : List ℕ → SmrNode → Progress → Progress
scan_node plist s p =
    if contains s.node plist
    then record p { tmp_list = s ∷ p.tmp_list; nrcount = p.nrcount + 1 }
    else (let (r, d) = free_data s.node p.rec in
        let (r', ds) = free_smr_node s.address r in
        record p { rec = r'; deleted = d ++ p.deleted; deleted_smr = ds ++ p.deleted_smr })

unfoldable pub scan_loop : List ℕ → List SmrNode → Progress → Progress
scan_loop plist [] p = p
scan_loop plist (s ∷ rest) p = scan_loop plist rest (scan_node plist s p)

abbrev pub begin_scan : HpRec → Progress
begin_scan r = record { rec = r; tmp_list = []; nrcount = 0; deleted = []; deleted_smr = [] }

-- `scan` by the thread of the record `r`, with the hazard pointers `plist` found in stage 1: the
-- new record, and the data nodes and the SMR nodes that are deleted.
unfoldable pub scan : List ℕ → HpRec → HpRec × List ℕ × List ℕ
scan plist r =
    let p = scan_loop plist r.rlist (begin_scan r) in
    (record (p.rec) { rlist = p.tmp_list; rcount = p.nrcount }, p.deleted, p.deleted_smr)

-- The data nodes of a retired list.
abbrev pub nodes : List SmrNode → List ℕ
nodes = map (λ s. s.node)
