-- ===== src/Smr/Domain/Merge.antt =====
-- include/amino/smr.h: `mergeList` and `helpScan`.
use amino.Prelude.{
  ℕ, ◌+◌, ◌≡◌, refl, List, [], ◌∷◌, ◌++◌, arith, length, length-append, times, times-append, ap,
  ◌∙◌,
}
use amino.Smr.Record.{SmrNode, HpRec}
use amino.Smr.Scan.{nodes}
use amino.Smr.Scan.Laws.{IsValid}
use amino.Smr.Domain.{merge_list}

pub nodes-append : (xs ys : List SmrNode) → nodes (xs ++ ys) ≡ nodes xs ++ nodes ys
nodes-append [] ys = refl
nodes-append (x ∷ xs) ys = ap (λ l. x.node ∷ l) (nodes-append xs ys)

-- `mergeList` moves every retired node of the old record over to the new one, each as often as it was
-- there, leaves none behind, and both records stay valid, their counts included.
pub merge_list_lem :
    (old new : HpRec) (a : ℕ)
    → IsValid old
    → IsValid new
    → let (o, m) = merge_list old new in
      IsValid o
      × IsValid m
      × (o.rlist ≡ [])
      × (times a (nodes m.rlist) ≡ times a (nodes old.rlist) + times a (nodes new.rlist))
unfolding merge_list
merge_list_lem old new a v w = split old.rlist refl
  where
    split :
        (l : List SmrNode)
        → old.rlist ≡ l
        → let (o, m) = merge_list old new in
          IsValid o
          × IsValid m
          × (o.rlist ≡ [])
          × (times a (nodes m.rlist) ≡ times a (nodes old.rlist) + times a (nodes new.rlist))
    split [] e = rw (e, merge_list) (v, w, e, omega arith)
    split (s ∷ l) e =
        rw (e, merge_list)
          (
            record {
              rcount_ok = refl;
              smr_ok = v.smr_ok;
              smr_fits = v.smr_fits;
              data_fits = v.data_fits;
            },
            record {
              rcount_ok = omega (
                arith,
                v.rcount_ok,
                ap (length {A = SmrNode}) e,
                w.rcount_ok,
                length-append (s ∷ l) new.rlist,
              );
              smr_ok = w.smr_ok;
              smr_fits = w.smr_fits;
              data_fits = w.data_fits;
            },
            refl,
            ap (times a) (nodes-append (s ∷ l) new.rlist)
                ∙ times-append a (nodes (s ∷ l)) (nodes new.rlist),
          )
