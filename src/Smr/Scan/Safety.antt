-- ===== src/Smr/Scan/Safety.antt =====
-- include/amino/smr.h: what `scan` does with the retired list of a thread.
use amino.Prelude.{
  ℕ, suc, ◌+◌, ◌≡◌, ◌≢◌, ◌≤◌, refl, true, false, List, [], ◌∷◌, arith, ◌==◌, if◌then◌else◌,
  contains, length, times, All, NotIn, IsNodup, Bool-cases, ◌⊎◌, inl, inr, sym, IsNodup-times,
  times-IsNodup,
}
use amino.Smr.Record.{HpRec, SmrNode, entries}
use amino.Smr.Scan.{scan_loop, begin_scan, scan, nodes}
use amino.Smr.Scan.Laws.{
  IsValid, Held, freed, scan_loop-count, scan_loop-freed, Running, scan_loop-Running,
  scan_loop-kept,
}

-- For every node: it occurs after a scan, in the retired list, the free list and what was deleted
-- together, as often as before in the retired list and the free list; and if a hazard pointer of
-- plist names it, it occurs no more often in the free list and what was deleted than before in
-- the free list: it is neither reused nor deleted.
pub scan_conserves :
    (plist : List ℕ) (r : HpRec) (a : ℕ)
    → let (q, deleted, smrs) = scan plist r in
      (times a (nodes q.rlist) + (times a (entries q.fr_data q.fr_data_count) + times a deleted)
        ≡ times a (nodes r.rlist) + times a (entries r.fr_data r.fr_data_count))
      × ((contains a plist ≡ false)
          ⊎ (times a (entries q.fr_data q.fr_data_count) + times a deleted
              ≡ times a (entries r.fr_data r.fr_data_count)))
unfolding scan freed
scan_conserves plist r a = (
  omega (arith, scan_loop-count a plist r.rlist (begin_scan r)),
  elim (Bool-cases (contains a plist)) [
    | inl held ↦ inr (omega (arith, scan_loop-freed a plist r.rlist (begin_scan r) held))
    | inr unheld ↦ inl unheld
  ],
)

scan-Running :
    (plist : List ℕ) (r : HpRec)
    → IsValid r
    → Running plist (scan_loop plist r.rlist (begin_scan r))
scan-Running plist r v = scan_loop-Running plist r.rlist (begin_scan r) (record {
  nrcount_ok = refl;
  smr_ok = v.smr_ok;
  smr_fits = v.smr_fits;
  data_fits = v.data_fits;
  held = tt;
})

-- A scan keeps the record valid, and every node that stays in its retired list is named by a hazard
-- pointer of plist.
pub scan-IsValid :
    (plist : List ℕ) (r : HpRec)
    → IsValid r
    → IsValid (scan plist r).0 × Held plist (scan plist r).0.rlist
unfolding scan
scan-IsValid plist r v =
    let k = scan-Running plist r v in
    (
      record {
        rcount_ok = k.nrcount_ok;
        smr_ok = k.smr_ok;
        smr_fits = k.smr_fits;
        data_fits = k.data_fits;
      },
      k.held,
    )

-- plist without its first occurrence of a node.
without : ℕ → List ℕ → List ℕ
without a [] = []
without a (x ∷ xs) = if a == x then xs else x ∷ without a xs

length-without :
    (a : ℕ) (xs : List ℕ) → contains a xs ≡ true → length xs ≡ suc (length (without a xs))
unfolding without contains
length-without a [] h = cc
length-without a (x ∷ xs) h = ground (arith, length-without a xs)

contains-without :
    (a b : ℕ) (xs : List ℕ) → b ≢ a → contains b xs ≡ true → contains b (without a xs) ≡ true
unfolding without contains
contains-without a b [] n h = cc
contains-without a b (x ∷ xs) n h = ground (arith, contains-without a b xs n)

All-contains-without :
    (a : ℕ) (l xs : List ℕ)
    → NotIn a l
    → All (λ b. contains b xs ≡ true) l
    → All (λ b. contains b (without a xs) ≡ true) l
All-contains-without a [] xs n h = tt
All-contains-without a (b ∷ l) xs n h =
    (contains-without a b xs (λ e. n.0 (sym e)) h.0, All-contains-without a l xs n.1 h.1)

kept_once :
    (plist : List ℕ) (r : HpRec)
    → IsNodup (nodes r.rlist)
    → (a : ℕ) → times a (nodes (scan plist r).0.rlist) ≤ 1
unfolding scan
kept_once plist r n a =
    omega (arith, scan_loop-kept a plist r.rlist (begin_scan r), IsNodup-times a (nodes r.rlist) n)

pigeonhole : (l xs : List ℕ) → IsNodup l → All (λ b. contains b xs ≡ true) l → length l ≤ length xs
pigeonhole [] xs n h = omega arith
pigeonhole (a ∷ l) xs n h = omega (
  arith,
  length-without a xs h.0,
  pigeonhole l (without a xs) n.1 (All-contains-without a l xs n.0 h.1),
)

All-nodes :
    (plist : List ℕ) (l : List SmrNode)
    → Held plist l
    → All (λ b. contains b plist ≡ true) (nodes l)
All-nodes plist [] h = tt
All-nodes plist (s ∷ l) h = (h.0, All-nodes plist l h.1)

pub length-nodes : (l : List SmrNode) → length (nodes l) ≡ length l
length-nodes [] = refl
length-nodes (s ∷ l) = omega (arith, length-nodes l)

-- If no node is twice in the retired list, a scan leaves at most as many nodes in it as there are hazard
-- pointers in plist, each of them once, and `rcount` tells how many.
pub scan_bound :
    (plist : List ℕ) (r : HpRec)
    → IsValid r
    → IsNodup (nodes r.rlist)
    → IsNodup (nodes (scan plist r).0.rlist) × ((scan plist r).0.rcount ≤ length plist)
scan_bound plist r v n =
    let (w, held) = scan-IsValid plist r v in
    let once = times-IsNodup (nodes (scan plist r).0.rlist) (kept_once plist r n) in
    (
      once,
      omega (
        arith,
        w.rcount_ok,
        length-nodes (scan plist r).0.rlist,
        pigeonhole (nodes (scan plist r).0.rlist) plist once
            (All-nodes plist (scan plist r).0.rlist held),
      ),
    )
