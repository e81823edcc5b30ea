-- ===== src/Smr/Domain.antt =====
-- include/amino/smr.h: `SMR`, the list of all records and the operations of a thread on it. Records
-- are named by their addresses, and each operation runs without interference.
pub mod Laws
pub mod Merge
pub mod Help
pub mod Reclaim
pub mod Bound
use amino.Prelude.{
  ℕ, zero, suc, ◌+◌, ◌*◌, ◌/◌, ◌≡◌, Bool, true, false, List, [], ◌∷◌, ◌++◌, Option, none, some,
  ◌==◌, leb, if◌then◌else◌, update, map, replicate, length, not, ◌&&◌,
}
use amino.Smr.Record.{SmrNode, HpRec, alloc_data_node, alloc_smr_node, employ, retire, retire_node}
use amino.Smr.Scan.{gather, scan}

abbrev pub minimal_rlist_len : ℕ
minimal_rlist_len = 16

-- `order` is the list from `head_hprec` on, and `mine` the thread-local record of each thread.
pub record Smr : Type 0 where
  pub recs : ℕ → HpRec
  pub order : List ℕ
  pub hp_count : ℕ
  pub rh : ℕ
  pub mine : ℕ → Option ℕ

-- `HPRecType::init` fills the record with zeros.
abbrev pub init_rec : ℕ → HpRec
init_rec k = record {
  hp = replicate k 0;
  active = false;
  rlist = [];
  rcount = 0;
  nr_threads = 0;
  fr_smr = [];
  fr_smr_count = 0;
  fr_data = λ _. 0;
  fr_data_count = 0;
}

-- The constructor of `SMR`.
abbrev pub init_smr : ℕ → Smr
init_smr k = record {
  recs = λ _. init_rec k;
  order = [];
  hp_count = 0;
  rh = minimal_rlist_len;
  mine = λ _. none;
}

-- The first record of the list that no thread uses.
unfoldable pub find_inactive : (ℕ → HpRec) → List ℕ → Option ℕ
find_inactive recs [] = none
find_inactive recs (h ∷ hs) = if (recs h).active then find_inactive recs hs else some h

unfoldable pub reuse : ℕ → ℕ → Smr → Smr
reuse t h s = record s {
  recs = update s.recs h (record (s.recs h) { active = true });
  mine = update s.mine t (some h);
}

-- A new record at the address `heap`, for `k` hazard pointers.
unfoldable pub push_rec : ℕ → ℕ → ℕ → Smr → Smr
push_rec k t heap s =
    let count = s.hp_count + 1 in
    record s {
      recs = update s.recs heap (record (init_rec k) { active = true; nr_threads = count });
      order = heap ∷ s.order;
      hp_count = count;
      rh = if leb (minimal_rlist_len / 2) count then count * 2 else s.rh;
      mine = update s.mine t (some heap);
    }

-- `allocHPRec`
unfoldable pub alloc_hp_rec : ℕ → ℕ → ℕ → Smr → ℕ × Smr
unfolding reuse push_rec
alloc_hp_rec k t heap s = elim (find_inactive s.recs s.order) [
  | some h ↦ (h, reuse t h s)
  | none ↦ (heap, push_rec k t heap s)
]

-- `getHPRec`
unfoldable pub get_hp_rec : ℕ → ℕ → ℕ → Smr → ℕ × Smr
unfolding alloc_hp_rec
get_hp_rec k t heap s = elim (s.mine t) [ some h ↦ (h, s) | none ↦ alloc_hp_rec k t heap s ]

-- Stage 1 of `scan`: plist, from the head of the list of records.
unfoldable pub plist_of : Smr → List ℕ
plist_of s = gather (map s.recs s.order) []

-- The array plist has room for `K` hazard pointers of each thread that the head of the list counts: the assertion
-- of `scan`, without which it would write out of the bounds of the array.
abbrev pub max_threads : Smr → ℕ
max_threads s = elim (s.order) [ [] ↦ 0 | h ∷ rest ↦ (s.recs h).nr_threads ]

unfoldable pub plist_in_bounds : ℕ → Smr → Bool
unfolding plist_of
plist_in_bounds k s = leb (length (plist_of s)) (max_threads s * k)

-- `delNode(my_hprec, node)`, with the record `h` and the address `heap` of a new SMR node: the data
-- nodes and SMR nodes that it deletes, and the new state. `none` is a failed assertion: that of
-- `allocSMRNode`, or that of `scan`, where it runs. `k` is the number K of hazard pointers of a thread.
unfoldable pub retire_into : ℕ → ℕ → HpRec → HpRec
retire_into node address r = record r {
  rlist = record { address = address; node = node } ∷ r.rlist;
  rcount = r.rcount + 1;
}

unfoldable pub reclaim : List ℕ → ℕ → HpRec → HpRec × List ℕ × List ℕ
reclaim plist rh r = if leb rh r.rcount then scan plist r else (r, [], [])

unfoldable pub del_node : ℕ → ℕ → ℕ → ℕ → Smr → Option (List ℕ × List ℕ × Smr)
unfolding retire_into reclaim plist_in_bounds
del_node k h node heap s = elim (alloc_smr_node heap (s.recs h)) [
  | none ↦ none
  | some (address, r) ↦
      let r1 = retire_into node address r in
      let (q, deleted, smrs) = reclaim (plist_of s) s.rh r1 in
      if leb s.rh r1.rcount && not (plist_in_bounds k s)
      then none
      else some (deleted, smrs, record s { recs = update s.recs h q })
]

-- `mergeList`: the old list in front of the new one, and its times added.
unfoldable pub merge_list : HpRec → HpRec → HpRec × HpRec
merge_list old new = elim old.rlist [
  | [] ↦ (old, new)
  | s ∷ l ↦ (
    record old { rlist = []; rcount = 0 },
    record new { rlist = (s ∷ l) ++ new.rlist; rcount = new.rcount + old.rcount },
  )
]

-- `helpScan` of the thread with the record `h`, from a place of the list of records on.
unfoldable pub help_scan : ℕ → List ℕ → (ℕ → HpRec) → ℕ → HpRec
unfolding merge_list
help_scan h [] recs = recs
help_scan h (x ∷ xs) recs =
    let (old, new) = merge_list (recs x) (recs h) in
    help_scan h xs (if (recs x).active then recs else update (update recs x old) h new)

-- `newNode(my_hprec)`
unfoldable pub new_node : ℕ → ℕ → Smr → ℕ × Smr
new_node h heap s =
    let (node, r) = alloc_data_node heap (s.recs h) in (node, record s { recs = update s.recs h r })
