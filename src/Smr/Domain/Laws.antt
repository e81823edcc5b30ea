-- ===== src/Smr/Domain/Laws.antt =====
-- include/amino/smr.h: what `allocHPRec` keeps true of the list of records.
use amino.Prelude.{
  ℕ, ◌+◌, ◌*◌, ◌/◌, ◌≡◌, ◌≤◌, refl, ◌⊎◌, inl, inr, true, false, List, [], ◌∷◌, arith, none, some,
  leb, if◌then◌else◌, update, map, length, length-replicate, contains, contains-cons,
  contains-cons_self, Option-cases, subst, update-elim, ap,
}
use amino.Smr.Record.{HpRec}
use amino.Smr.Scan.{gather, gather_hp}
use amino.Smr.Scan.Laws.{IsValid}
use amino.Smr.Domain.{
  minimal_rlist_len, Smr, init_rec, init_smr, find_inactive, reuse, push_rec, alloc_hp_rec,
  get_hp_rec, plist_of, plist_in_bounds,
}

abbrev pub HeadCounts : (ℕ → HpRec) → List ℕ → ℕ → Type 0
HeadCounts recs [] n = Unit
HeadCounts recs (h ∷ hs) n = (recs h).nr_threads ≡ n

abbrev pub RecIsValid : ℕ → HpRec → Type 0
RecIsValid k r = (length r.hp ≡ k) × IsValid r

pub record SmrIsValid (k : ℕ) (s : Smr) : Type 0 where
  pub counted : length s.order ≡ s.hp_count
  pub head : HeadCounts s.recs s.order s.hp_count
  pub each : (h : ℕ) → contains h s.order ≡ true → RecIsValid k (s.recs h)
  pub owned :
      (t h : ℕ) → s.mine t ≡ some h → (contains h s.order ≡ true) × ((s.recs h).active ≡ true)
  pub apart : (t u h : ℕ) → s.mine t ≡ some h → s.mine u ≡ some h → t ≡ u
  pub limit :
      s.rh ≡ (if leb (minimal_rlist_len / 2) s.hp_count then s.hp_count * 2 else minimal_rlist_len)

pub init_smr-IsValid : (k : ℕ) → SmrIsValid k (init_smr k)
unfolding contains
init_smr-IsValid k = record {
  counted = refl;
  head = tt;
  each = λ h c. cc;
  owned = λ t h e. cc;
  apart = λ t u h e f. cc;
  limit = refl;
}

find_inactive_lem :
    (recs : ℕ → HpRec) (l : List ℕ) (h : ℕ)
    → find_inactive recs l ≡ some h
    → (contains h l ≡ true) × ((recs h).active ≡ false)
unfolding find_inactive contains
find_inactive_lem recs [] h e = cc
find_inactive_lem recs (x ∷ l) h e = ground (arith, find_inactive_lem recs l h)

HeadCounts-update :
    (recs : ℕ → HpRec) (l : List ℕ) (h n : ℕ) (r : HpRec)
    → r.nr_threads ≡ (recs h).nr_threads
    → HeadCounts recs l n
    → HeadCounts (update recs h r) l n
HeadCounts-update recs [] h n r e c = tt
HeadCounts-update recs (x ∷ l) h n r e c = ground arith

reuse-IsValid :
    (k t h : ℕ) (s : Smr)
    → s.mine t ≡ none
    → (contains h s.order ≡ true) × ((s.recs h).active ≡ false)
    → SmrIsValid k s
    → SmrIsValid k (reuse t h s)
unfolding reuse
reuse-IsValid k t h s fresh found v = record {
  counted = v.counted;
  head = HeadCounts-update s.recs s.order h s.hp_count _ refl v.head;
  each = λ x c. ground (arith, v.each x c);
  owned = λ u x e. ground (arith, v.owned u x);
  apart = λ u w x e f. ground (arith, v.owned u x, v.owned w x, v.apart u w x);
  limit = v.limit;
}

init_rec-IsValid : (k n : ℕ) → RecIsValid k (record (init_rec k) { active = true; nr_threads = n })
init_rec-IsValid k n = (
  length-replicate k 0,
  record { rcount_ok = refl; smr_ok = refl; smr_fits = omega arith; data_fits = omega arith },
)

contains-cons_inv :
    (a x : ℕ) (l : List ℕ) → contains a (x ∷ l) ≡ true → (a ≡ x) ⊎ (contains a l ≡ true)
unfolding contains
contains-cons_inv a x l h = ground arith

push_rec-IsValid :
    (k t heap : ℕ) (s : Smr)
    → s.mine t ≡ none
    → contains heap s.order ≡ false
    → SmrIsValid k s
    → SmrIsValid k (push_rec k t heap s)
unfolding push_rec
push_rec-IsValid k t heap s fresh new v = record {
  counted = omega (arith, v.counted);
  head = ground arith;
  each = λ x c.
      update-elim (RecIsValid k) s.recs heap _ x (λ e. init_rec-IsValid k (s.hp_count + 1))
        (λ ne. v.each x (ground (arith, contains-cons_inv x heap s.order c)));
  owned = λ u x e.
      ground (arith, v.owned u x, contains-cons_self heap s.order, contains-cons x heap s.order);
  apart = λ u w x e f. ground (arith, v.owned u x, v.owned w x, v.apart u w x);
  limit = ground (arith, v.limit);
}

-- `getHPRec` keeps the list of records valid: its length is `hp_count`, the head knows it, no two threads
-- own one record, and `RH` follows the count. It hands out a record that thread `t` owns, which
-- is active and stands in the list; a record that had an owner keeps it.
pub get_hp_rec-IsValid :
    (k t heap : ℕ) (s : Smr)
    → contains heap s.order ≡ false
    → SmrIsValid k s
    → let (h, q) = get_hp_rec k t heap s in
      SmrIsValid k q
      × (q.mine t ≡ some h)
      × ((q.recs h).active ≡ true)
      × (contains h q.order ≡ true)
      × ((u x : ℕ) → s.mine u ≡ some x → q.mine u ≡ some x)
unfolding get_hp_rec alloc_hp_rec
get_hp_rec-IsValid k t heap s new v = elim (Option-cases (s.mine t)) [
  | inr (h, e) ↦ rw (e, get_hp_rec) (v, e, (v.owned t h e).1, (v.owned t h e).0, λ u x o. o)
  | inl none_yet ↦ elim (Option-cases (find_inactive s.recs s.order)) [
    | inr (h, e) ↦
        let found = find_inactive_lem s.recs s.order h e in
        rw (none_yet, get_hp_rec, e, alloc_hp_rec)
          (
            reuse-IsValid k t h s none_yet found v,
            ground arith,
            ground arith,
            found.0,
            λ u x o. ground arith,
          )
    | inl all_active ↦
        rw (none_yet, get_hp_rec, all_active, alloc_hp_rec)
          (
            push_rec-IsValid k t heap s none_yet new v,
            ground arith,
            ground arith,
            contains-cons_self heap s.order,
            λ u x o. ground arith,
          )
  ]
]

length-gather_hp : (xs plist : List ℕ) → length (gather_hp xs plist) ≤ length xs + length plist
length-gather_hp [] plist = omega arith
length-gather_hp (x ∷ xs) plist =
    ground (arith, length-gather_hp xs plist, length-gather_hp xs (x ∷ plist))

pub length-gather :
    (k : ℕ) (recs : ℕ → HpRec) (l plist : List ℕ)
    → ((h : ℕ) → contains h l ≡ true → length (recs h).hp ≡ k)
    → length (gather (map recs l) plist) ≤ length l * k + length plist
unfolding gather
length-gather k recs [] plist e = omega arith
length-gather k recs (h ∷ l) plist e = omega (
  arith,
  e h (contains-cons_self h l),
  length-gather_hp (recs h).hp plist,
  length-gather k recs l (gather_hp (recs h).hp plist) (λ x c. e x (contains-cons x h l c)),
)

-- The array plist of `scan`, of size `max_threads * K` with the count of the head record for
-- `max_threads`, has room for every hazard pointer that is not NULL: the assertion holds.
pub plist_fits :
    (k h : ℕ) (s : Smr) (rest : List ℕ)
    → SmrIsValid k s
    → s.order ≡ h ∷ rest
    → length (plist_of s) ≤ (s.recs h).nr_threads * k
unfolding plist_of
plist_fits k h s rest v e =
    let count : (s.recs h).nr_threads ≡ s.hp_count =
      subst (λ l. HeadCounts s.recs l s.hp_count) e v.head in
    rw (count, ← v.counted)
      (omega (arith, length-gather k s.recs s.order [] (λ x c. (v.each x c).0)))

-- So on valid records the assertion of `scan` holds.
pub plist_in_bounds_lem : (k : ℕ) (s : Smr) → SmrIsValid k s → plist_in_bounds k s ≡ true
unfolding plist_in_bounds plist_of gather
plist_in_bounds_lem k s v = by_order s.order refl
  where
    by_order : (l : List ℕ) → s.order ≡ l → plist_in_bounds k s ≡ true
    by_order [] e =
        let none_there = ap (λ l. length (gather (map s.recs l) [])) e in ground (arith, none_there)
    by_order (h ∷ rest) e =
        let count =
          ap (λ l. elim l as (λ _. ℕ) [ [] ↦ 0 | x ∷ xs ↦ (s.recs x).nr_threads ] * k) e in
        ground (arith, plist_fits k h s rest v e, count)
