-- ===== src/Smr/Domain/Help.antt =====
-- include/amino/smr.h: what `helpScan` does for the records that no thread uses.
use amino.Prelude.{
  ℕ, ◌+◌, ◌≡◌, ◌≢◌, refl, sym, ◌∙◌, ap, true, false, List, [], ◌∷◌, ◌++◌, ◌==◌, arith, times,
  times-append, if◌then◌else◌, update, NotIn, IsNodup, Bool-cases, inl, inr, ◌⊎◌, subst,
}
use amino.Smr.Record.{SmrNode, HpRec}
use amino.Smr.Scan.{nodes}
use amino.Smr.Domain.{merge_list, help_scan}
use amino.Smr.Domain.Merge.{nodes-append}

-- How often node `a` stands in the retired list of a record, if it is inactive; and in those of
-- the inactive records among `l`.
abbrev pub held_idle : ℕ → HpRec → ℕ
held_idle a r = if r.active then 0 else times a (nodes r.rlist)

abbrev pub orphans : ℕ → List ℕ → (ℕ → HpRec) → ℕ
orphans a [] recs = 0
orphans a (x ∷ l) recs = held_idle a (recs x) + orphans a l recs

-- `mergeList` on any two records.
record IsMerged (a : ℕ) (old new o m : HpRec) : Type 0 where
  emptied : o.rlist ≡ []
  moved : times a (nodes m.rlist) ≡ times a (nodes old.rlist) + times a (nodes new.rlist)
  old_active : o.active ≡ old.active
  new_active : m.active ≡ new.active

-- The two ways through `mergeList`.
merge_list_cases :
    (old new : HpRec)
    → ((old.rlist ≡ []) × (merge_list old new ≡ (old, new)))
      ⊎ (merge_list old new ≡ (
        record old { rlist = []; rcount = 0 },
        record new { rlist = old.rlist ++ new.rlist; rcount = new.rcount + old.rcount },
      ))
unfolding merge_list
merge_list_cases old new = split old.rlist refl
  where
    split :
        (l : List SmrNode)
        → old.rlist ≡ l
        → ((old.rlist ≡ []) × (merge_list old new ≡ (old, new)))
          ⊎ (merge_list old new ≡ (
            record old { rlist = []; rcount = 0 },
            record new { rlist = old.rlist ++ new.rlist; rcount = new.rcount + old.rcount },
          ))
    split [] e = inl (
      e,
      ap
          (λ t. elim t as (λ _. HpRec × HpRec) [
            | [] ↦ (old, new)
            | s ∷ l ↦ (
              record old { rlist = []; rcount = 0 },
              record new { rlist = (s ∷ l) ++ new.rlist; rcount = new.rcount + old.rcount },
            )
          ])
          e,
    )
    split (s ∷ l) e = inr (rw (e, merge_list) refl)

merge_list-IsMerged :
    (a : ℕ) (old new : HpRec) → let (o, m) = merge_list old new in IsMerged a old new o m
merge_list-IsMerged a old new = elim (merge_list_cases old new) [
  | inl (e, f) ↦
      subst (λ r. IsMerged a old new r.0 r.1) (sym f)
        (record {
          emptied = e;
          moved = omega (arith, ap (λ l. times a (nodes l)) e);
          old_active = refl;
          new_active = refl;
        })
  | inr f ↦
      subst (λ r. IsMerged a old new r.0 r.1) (sym f)
        (record {
          emptied = refl;
          moved =
              ap (times a) (nodes-append old.rlist new.rlist)
              ∙ times-append a (nodes old.rlist) (nodes new.rlist);
          old_active = refl;
          new_active = refl;
        })
]

module _ (h : ℕ) where
  orphans-merge :
      (a x : ℕ) (l : List ℕ) (recs : ℕ → HpRec) (old new : HpRec)
      → NotIn x l
      → (recs h).active ≡ true
      → new.active ≡ true
      → orphans a l (update (update recs x old) h new) ≡ orphans a l recs
  orphans-merge a x [] recs old new n on on' = refl
  orphans-merge a x (y ∷ l) recs old new n on on' =
      ground (arith, n.0, on, on', orphans-merge a x l recs old new n.1 on on')

  -- The records after those of `x` and `h` have been merged.
  abbrev joined : ℕ → (ℕ → HpRec) → ℕ → HpRec
  joined x recs = let (o, m) = merge_list (recs x) (recs h) in update (update recs x o) h m

  help_scan-used :
      (x : ℕ) (l : List ℕ) (recs : ℕ → HpRec)
      → (recs x).active ≡ true
      → help_scan h (x ∷ l) recs ≡ help_scan h l recs
  unfolding help_scan
  help_scan-used x l recs e = ap (λ b. help_scan h l (if b then recs else joined x recs)) e

  help_scan-unused :
      (x : ℕ) (l : List ℕ) (recs : ℕ → HpRec)
      → (recs x).active ≡ false
      → help_scan h (x ∷ l) recs ≡ help_scan h l (joined x recs)
  unfolding help_scan
  help_scan-unused x l recs e = ap (λ b. help_scan h l (if b then recs else joined x recs)) e

  joined-active :
      (x : ℕ) (recs : ℕ → HpRec) → (recs h).active ≡ true → (joined x recs h).active ≡ true
  joined-active x recs on =
      let p = merge_list-IsMerged 0 (recs x) (recs h) in
      let still : (merge_list (recs x) (recs h)).1.active ≡ true = p.new_active ∙ on in
      ground (arith, still)

  help_scan-active :
      (l : List ℕ) (recs : ℕ → HpRec)
      → (recs h).active ≡ true
      → (help_scan h l recs h).active ≡ true
  unfolding help_scan
  help_scan-active [] recs on = on
  help_scan-active (x ∷ l) recs on = elim (Bool-cases (recs x).active) [
    | inl used ↦ ap (λ q. (q h).active) (help_scan-used x l recs used) ∙ help_scan-active l recs on
    | inr unused ↦
        ap (λ q. (q h).active) (help_scan-unused x l recs unused)
        ∙ help_scan-active l (joined x recs) (joined-active x recs on)
  ]

  help_scan-other :
      (y : ℕ) (l : List ℕ) (recs : ℕ → HpRec) → NotIn y l → y ≢ h → help_scan h l recs y ≡ recs y
  unfolding help_scan
  help_scan-other y [] recs n ne = refl
  help_scan-other y (x ∷ l) recs n ne = elim (Bool-cases (recs x).active) [
    | inl used ↦ ap (λ q. q y) (help_scan-used x l recs used) ∙ help_scan-other y l recs n.1 ne
    | inr unused ↦
        ap (λ q. q y) (help_scan-unused x l recs unused)
        ∙ help_scan-other y l (joined x recs) n.1 ne
        ∙ ground (arith, n.0, ne)
  ]

  -- The retired nodes of the inactive records come to record `h`.
  help_scan-moves :
      (a : ℕ) (l : List ℕ) (recs : ℕ → HpRec)
      → (recs h).active ≡ true
      → IsNodup l
      → times a (nodes (help_scan h l recs h).rlist)
        ≡ times a (nodes (recs h).rlist) + orphans a l recs
  unfolding help_scan
  help_scan-moves a [] recs on n = omega arith
  help_scan-moves a (x ∷ l) recs on n = elim (Bool-cases (recs x).active) [
    | inl used ↦
        ap (λ q. times a (nodes (q h).rlist)) (help_scan-used x l recs used)
        ∙ ground (arith, help_scan-moves a l recs on n.1, used)
    | inr unused ↦
        let p = merge_list-IsMerged a (recs x) (recs h) in
        let kept : (merge_list (recs x) (recs h)).1.active ≡ true = p.new_active ∙ on in
        ap (λ q. times a (nodes (q h).rlist)) (help_scan-unused x l recs unused)
        ∙ ground (
          arith,
          help_scan-moves a l (joined x recs) (joined-active x recs on) n.1,
          orphans-merge a x l recs (merge_list (recs x) (recs h)).0 (merge_list (recs x) (recs h)).1
              n.0 on kept,
          p.moved,
          unused,
        )
  ]

  used-held_idle :
      (a x : ℕ) (l : List ℕ) (recs : ℕ → HpRec)
      → (recs h).active ≡ true
      → NotIn x l
      → (recs x).active ≡ true
      → held_idle a (help_scan h l recs x) ≡ 0
  used-held_idle a x l recs on n used = elim (Bool-cases (x == h)) [
    | inl y ↦
        let here : x ≡ h = ground (arith, y) in
        let active : (help_scan h l recs x).active ≡ true =
          ap (λ z. (help_scan h l recs z).active) here ∙ help_scan-active l recs on in
        ground (arith, active)
    | inr ne ↦
        ap (held_idle a) (help_scan-other x l recs n (ground (arith, ne))) ∙ ground (arith, used)
  ]

  unused-held_idle :
      (a x : ℕ) (l : List ℕ) (recs : ℕ → HpRec)
      → (recs h).active ≡ true
      → NotIn x l
      → (recs x).active ≡ false
      → held_idle a (help_scan h l (joined x recs) x) ≡ 0
  unused-held_idle a x l recs on n unused =
      let p = merge_list-IsMerged a (recs x) (recs h) in
      let ne : x ≢ h = λ e. ground (arith, ap (λ z. (recs z).active) e, on, unused) in
      let empty : times a (nodes (merge_list (recs x) (recs h)).0.rlist) ≡ 0 =
        ap (λ z. times a (nodes z)) p.emptied in
      ap (held_idle a) (help_scan-other x l (joined x recs) n ne) ∙ ground (arith, ne, empty)

  help_scan-empties :
      (a : ℕ) (l : List ℕ) (recs : ℕ → HpRec)
      → (recs h).active ≡ true
      → IsNodup l
      → orphans a l (help_scan h l recs) ≡ 0
  help_scan-empties a [] recs on n = refl
  help_scan-empties a (x ∷ l) recs on n = elim (Bool-cases (recs x).active) [
    | inl used ↦
        ap (orphans a (x ∷ l)) (help_scan-used x l recs used)
        ∙ omega (arith, used-held_idle a x l recs on n.0 used, help_scan-empties a l recs on n.1)
    | inr unused ↦
        ap (orphans a (x ∷ l)) (help_scan-unused x l recs unused)
        ∙ omega (
          arith,
          unused-held_idle a x l recs on n.0 unused,
          help_scan-empties a l (joined x recs) (joined-active x recs on) n.1,
        )
  ]

-- `helpScan` of a thread whose own record is active, on a list in which no record is twice: every
-- retired node of an inactive record comes to the record of the thread, each as often as it was there, and no
-- inactive record keeps one.
pub help_scan_lem :
    (a h : ℕ) (l : List ℕ) (recs : ℕ → HpRec)
    → (recs h).active ≡ true
    → IsNodup l
    → (times a (nodes (help_scan h l recs h).rlist)
        ≡ times a (nodes (recs h).rlist) + orphans a l recs)
      × (orphans a l (help_scan h l recs) ≡ 0)
help_scan_lem a h l recs on n = (help_scan-moves h a l recs on n, help_scan-empties h a l recs on n)
