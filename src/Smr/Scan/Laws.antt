-- ===== src/Smr/Scan/Laws.antt =====
-- include/amino/smr.h: `scan` loses no node and frees none that a hazard pointer names.
use amino.Prelude.{
  ℕ, zero, suc, ◌+◌, ◌≡◌, ◌≤◌, refl, true, List, [], ◌∷◌, arith, ltb, contains, update, length,
  times, times-append, All, Bool-cases, inl, inr, ◌∙◌,
}
use amino.Smr.Record.{max_free_nodes, SmrNode, HpRec, free_data, free_smr_node, entries}
use amino.Smr.Scan.{Progress, scan_node, scan_loop, begin_scan, scan, nodes}

-- The counts of a record are those of its lists, and its free lists are bounded.
pub record IsValid (r : HpRec) : Type 0 where
  pub rcount_ok : r.rcount ≡ length r.rlist
  pub smr_ok : r.fr_smr_count ≡ length r.fr_smr
  pub smr_fits : r.fr_smr_count ≤ max_free_nodes
  pub data_fits : r.fr_data_count ≤ max_free_nodes

entries-update_of_le : (f : ℕ → ℕ) (k v n : ℕ) → n ≤ k → entries (update f k v) n ≡ entries f n
unfolding entries
entries-update_of_le f k v zero h = refl
entries-update_of_le f k v (suc n) h = ground (arith, entries-update_of_le f k v n (omega arith))

pub entries-push : (f : ℕ → ℕ) (n v : ℕ) → entries (update f n v) (n + 1) ≡ v ∷ entries f n
unfolding entries
entries-push f n v =
    let e : n + 1 ≡ suc n = omega arith in
    rw e (ground (arith, entries-update_of_le f n v n (omega arith)))

-- Where a freed data node goes: to the free list or to `delete`.
free_data-count :
    (a x : ℕ) (r : HpRec)
    → times a (entries (free_data x r).0.fr_data (free_data x r).0.fr_data_count)
        + times a (free_data x r).1
      ≡ times a (x ∷ []) + times a (entries r.fr_data r.fr_data_count)
unfolding free_data
free_data-count a x r = elim (Bool-cases (ltb r.fr_data_count max_free_nodes)) [
  | inl fits ↦ rw fits (rw entries-push (omega arith))
  | inr full ↦ rw full (omega arith)
]

-- The places in which a data node may be while `scan` runs.
unfoldable pub freed : ℕ → Progress → ℕ
freed a p = times a (entries p.rec.fr_data p.rec.fr_data_count) + times a p.deleted

free_smr_node_data :
    (x : ℕ) (r : HpRec)
    → ((free_smr_node x r).0.fr_data ≡ r.fr_data)
      × ((free_smr_node x r).0.fr_data_count ≡ r.fr_data_count)
unfolding free_smr_node
free_smr_node_data x r = ground arith

scan_node-count :
    (a : ℕ) (plist : List ℕ) (s : SmrNode) (p : Progress)
    → times a (nodes (scan_node plist s p).tmp_list) + freed a (scan_node plist s p)
      ≡ times a (s.node ∷ []) + times a (nodes p.tmp_list) + freed a p
unfolding scan_node freed
scan_node-count a plist s p = elim (Bool-cases (contains s.node plist)) [
  | inl held ↦ rw held (omega arith)
  | inr unheld ↦
      let (r, d) = free_data s.node p.rec in
      let (same, same_count) = free_smr_node_data s.address r in
      rw (unheld, same, same_count)
        (omega (arith, free_data-count a s.node p.rec, times-append a d p.deleted))
]

scan_node-freed :
    (a : ℕ) (plist : List ℕ) (s : SmrNode) (p : Progress)
    → contains a plist ≡ true
    → freed a (scan_node plist s p) ≡ freed a p
unfolding scan_node freed
scan_node-freed a plist s p h = elim (Bool-cases (contains s.node plist)) [
  | inl held ↦ rw held
  | inr unheld ↦
      let (r, d) = free_data s.node p.rec in
      let (same, same_count) = free_smr_node_data s.address r in
      rw (unheld, same, same_count)
        (ground (arith, free_data-count a s.node p.rec, times-append a d p.deleted))
]

pub scan_loop-count :
    (a : ℕ) (plist : List ℕ) (l : List SmrNode) (p : Progress)
    → times a (nodes (scan_loop plist l p).tmp_list) + freed a (scan_loop plist l p)
      ≡ times a (nodes l) + times a (nodes p.tmp_list) + freed a p
unfolding scan_loop
scan_loop-count a plist [] p = omega arith
scan_loop-count a plist (s ∷ l) p =
    omega (arith, scan_loop-count a plist l (scan_node plist s p), scan_node-count a plist s p)

pub scan_loop-freed :
    (a : ℕ) (plist : List ℕ) (l : List SmrNode) (p : Progress)
    → contains a plist ≡ true
    → freed a (scan_loop plist l p) ≡ freed a p
unfolding scan_loop
scan_loop-freed a plist [] p h = refl
scan_loop-freed a plist (s ∷ l) p h =
    scan_loop-freed a plist l (scan_node plist s p) h ∙ scan_node-freed a plist s p h

abbrev pub Held : List ℕ → List SmrNode → Type 0
Held plist = All (λ s. contains s.node plist ≡ true)

-- What the loop keeps true of the counts.
pub record Running (plist : List ℕ) (p : Progress) : Type 0 where
  pub nrcount_ok : p.nrcount ≡ length p.tmp_list
  pub smr_ok : p.rec.fr_smr_count ≡ length p.rec.fr_smr
  pub smr_fits : p.rec.fr_smr_count ≤ max_free_nodes
  pub data_fits : p.rec.fr_data_count ≤ max_free_nodes
  pub held : Held plist p.tmp_list

scan_node-Running :
    (plist : List ℕ) (s : SmrNode) (p : Progress)
    → Running plist p
    → Running plist (scan_node plist s p)
unfolding scan_node free_data free_smr_node
scan_node-Running plist s p v = elim (Bool-cases (contains s.node plist)) [
  | inl held ↦ rw held (ground arith)
  | inr unheld ↦ rw unheld (ground arith)
]

pub scan_loop-Running :
    (plist : List ℕ) (l : List SmrNode) (p : Progress)
    → Running plist p
    → Running plist (scan_loop plist l p)
unfolding scan_loop
scan_loop-Running plist [] p v = v
scan_loop-Running plist (s ∷ l) p v =
    scan_loop-Running plist l (scan_node plist s p) (scan_node-Running plist s p v)

pub scan_loop-kept :
    (a : ℕ) (plist : List ℕ) (l : List SmrNode) (p : Progress)
    → times a (nodes (scan_loop plist l p).tmp_list)
      ≤ times a (nodes l) + times a (nodes p.tmp_list)
unfolding scan_loop scan_node
scan_loop-kept a plist [] p = omega arith
scan_loop-kept a plist (s ∷ l) p =
    let rest = scan_loop-kept a plist l (scan_node plist s p) in ground (arith, rest)

-- What a scan leaves alone.
abbrev pub SameHead : HpRec → HpRec → Type 0
SameHead q r = (q.hp ≡ r.hp) × (q.nr_threads ≡ r.nr_threads) × (q.active ≡ r.active)

scan_node-SameHead :
    (plist : List ℕ) (s : SmrNode) (p : Progress) → SameHead (scan_node plist s p).rec p.rec
unfolding scan_node free_data free_smr_node
scan_node-SameHead plist s p = ground arith

scan_loop-SameHead :
    (plist : List ℕ) (l : List SmrNode) (p : Progress) → SameHead (scan_loop plist l p).rec p.rec
unfolding scan_loop
scan_loop-SameHead plist [] p = (refl, refl, refl)
scan_loop-SameHead plist (s ∷ l) p =
    let a = scan_loop-SameHead plist l (scan_node plist s p) in
    let b = scan_node-SameHead plist s p in (a.0 ∙ b.0, a.1 ∙ b.1, a.2 ∙ b.2)

pub scan-SameHead : (plist : List ℕ) (r : HpRec) → SameHead (scan plist r).0 r
unfolding scan
scan-SameHead plist r = scan_loop-SameHead plist r.rlist (begin_scan r)
