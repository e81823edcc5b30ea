-- ===== src/HashSet/Initialize.antt =====
-- include/amino/lockfree_set.h: `initialize_bucket` ends, and makes the dummy node of a bucket.
use mathlib.Core.Option.{some-injective}
use amino.Prelude.{
  ℕ, zero, suc, ◌+◌, ◌^◌, ◌≤◌, ◌<◌, ◌≡◌, refl, sym, ap, subst, arith, ◌∙◌, true, false, ◌||◌, List,
  Option, none, some, Option-cases, Bool-cases, update, update-elim, inl, inr,
}
use amino.HashSet.Bits.{bit}
use amino.HashSet.Word.{dummy_key, get_parent}
use amino.HashSet.Order.{get_parent_lem, dummy_even}
use amino.HashSet.Nodes.{SetNode, add_from, node_eq}
use amino.HashSet.Sorted.{Ascending, has, add_from_lem, node_lt}
use amino.HashSet.Table.{Set, fill, set_bucket, cell, ◌>>=◌, dummy, initialize_bucket}
use amino.HashSet.Buckets.{with_array, Recells, set_bucket_lem}
use amino.HashSet.Valid.{Valid, Keeps, Keeps-trans, recelled, Valid-Fits, pow_le, open_bucket_lem}

pub small : {j g b : ℕ} {s : Set} → Valid j g s → b < 2 ^ j → b < 2 ^ 30
small {j} {g} {b} {s} v h =
    omega (arith, pow_le (v.wide), pow_le {j = g + 9} {w = 30} (omega (arith, v.limit)))

-- A dummy node is no element.
pub dummy_other : (b : ℕ) (x : SetNode) → b < 2 ^ 31 → bit 0 x.key ≡ 1 → node_eq (dummy b) x ≡ false
dummy_other b x h odd = elim (Bool-cases (node_eq (dummy b) x)) [
  | inl eq ↦
      let k : dummy_key b ≡ x.key = ground arith in
      absurd (omega (arith, sym (dummy_even b h) ∙ ap (bit 0) k ∙ odd))
  | inr ne ↦ ne
]

-- The list after `initialize_bucket` has added the dummy node.
with_nodes :
    {j g : ℕ} {s : Set} (b : ℕ) (l : List SetNode)
    → Valid j g s
    → b < 2 ^ j
    → Ascending none l
    → ((x : SetNode) → has x l ≡ (node_eq (dummy b) x || has x s.o_list))
    → Keeps j g s (record s { o_list = l })
with_nodes {j} {g} {s} b l v h asc mem = record {
  valid = record {
    size_is = v.size_is;
    segment_is = v.segment_is;
    wide = v.wide;
    limit = v.limit;
    ascending = asc;
    first = v.first;
    points = λ c x k. let (lt, e, i) = v.points c x k in (lt, e, ground (arith, mem (dummy c), i));
  };
  count_same = refl;
  elements = λ x odd. ground (arith, mem x, dummy_other b x (omega (arith, small v h)) odd);
}

before : (b : ℕ) → 1 ≤ b → b < 2 ^ 30 → node_lt (dummy (get_parent b)) (dummy b) ≡ true
before b pos h =
    let (k, lo, hi, e, lt, order) = get_parent_lem b pos (omega (arith, h)) in ground (arith, order)

pub nonzero : {j g : ℕ} {t : Set} (p : ℕ) → Valid j g t → cell p t ≡ none → 1 ≤ p
nonzero zero v h = absurd (ground (arith, sym (v.first) ∙ h))
nonzero (suc p) v h = omega arith

-- The cell of the bucket is filled, or it holds the dummy node already.
fill-dummy :
    {j g : ℕ} {t : Set} (b : ℕ) → Valid j g t → fill (some (dummy b)) (cell b t) ≡ some (dummy b)
fill-dummy {t = t} b v = elim (Option-cases (cell b t)) [
  | inl null ↦ ap (fill (some (dummy b))) null
  | inr (x, there) ↦ ap (fill (some (dummy b))) there ∙ ap some ((v.points b x there).1)
]

-- The same cells but for that of `b`.
filled_cells :
    {j g : ℕ} {t : Set} {f : ℕ → Option (ℕ → Option SetNode)} (b : ℕ)
    → Valid j g t
    → b < 2 ^ j
    → has (dummy b) t.o_list ≡ true
    → Recells t (update (λ c. cell c t) b (fill (some (dummy b)) (cell b t))) f
    → Keeps j g t (with_array t f) × (cell b (with_array t f) ≡ some (dummy b))
filled_cells {j} {t = t} b v h inside r =
    let new = fill (some (dummy b)) (cell b t) in
    let e = fill-dummy b v in
    (
      recelled v r
          (update-elim (λ z. z ≡ some (dummy 0)) (λ c. cell c t) b new 0
            (λ q. e ∙ ap (λ c. some (dummy c)) q) (λ _. v.first))
          (λ c x.
            update-elim
              (λ z. z ≡ some x → (c < 2 ^ j) × (x ≡ dummy c) × (has (dummy c) t.o_list ≡ true))
              (λ c. cell c t) b new c
              (λ q there.
                subst (λ c. (c < 2 ^ j) × (x ≡ dummy c) × (has (dummy c) t.o_list ≡ true)) q
                  (h, sym (some-injective _ _ (sym e ∙ there)), inside))
              (λ _. v.points c x)),
      r b
          ∙ update-elim (λ z. z ≡ some (dummy b)) (λ c. cell c t) b new b (λ _. e)
              (λ ne. absurd (ne refl)),
    )

-- The end of `initialize_bucket`.
add_dummy :
    {j g : ℕ} {t : Set} (b : ℕ)
    → Valid j g t
    → 1 ≤ b
    → b < 2 ^ j
    → cell (get_parent b) t ≡ some (dummy (get_parent b))
    → (u : Set) × ((add_from (dummy (get_parent b)) (dummy b) t.o_list >>= λ a.
          set_bucket b (some (a.1)) (record t { o_list = a.2 }))
        ≡ some u)
      × Keeps j g t u
      × (cell b u ≡ some (dummy b))
add_dummy {t = t} b v pos h at =
    let p = get_parent b in
    let (l, added, asc, mem) =
      add_from_lem none (dummy p) (dummy b) t.o_list (v.ascending) ((v.points p (dummy p) at).2)
        (before b pos (small v h)) in
    let kl = with_nodes b l v h asc mem in
    let t' = record t { o_list = l } in
    let (f, filled, cells) = set_bucket_lem b (some (dummy b)) t' (Valid-Fits (kl.valid) h) in
    let (kf, made) = filled_cells b (kl.valid) h (ground (arith, mem (dummy b))) cells in
    (with_array t' f, rw (added, filled) refl, Keeps-trans kl kf, made)

-- In a valid set of 2 ^ j buckets, for a bucket other than 0 and with more fuel than its number, `initialize_bucket`
-- returns, the set is valid and has the same elements, and the cell of the bucket points to its dummy node.
pub initialize_bucket_lem :
    {j g : ℕ} (n b : ℕ) (s : Set)
    → Valid j g s
    → 1 ≤ b
    → b < 2 ^ j
    → b < n
    → (u : Set) × (initialize_bucket n b s ≡ some u) × Keeps j g s u × (cell b u ≡ some (dummy b))
unfolding initialize_bucket
initialize_bucket_lem zero b s v pos h fuel = absurd (omega arith)
initialize_bucket_lem (suc n) b s v pos h fuel =
    let p = get_parent b in
    let (k, lo, hi, e, less, order) = get_parent_lem b pos (omega (arith, small v h)) in
    let (t, run, kt, at) =
      open_bucket_lem (initialize_bucket n p) p v (omega (arith, less)) (λ t vt null.
        initialize_bucket_lem n p t vt (nonzero p vt null) (omega (arith, less))
          (omega (arith, less))) in
    let (u, done, ku, made) = add_dummy b (kt.valid) pos h at in
    (u, rw run done, Keeps-trans kt ku, made)
