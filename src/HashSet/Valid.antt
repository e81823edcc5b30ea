-- ===== src/HashSet/Valid.antt =====
-- include/amino/lockfree_set.h: the invariant of the hash set, and that the cells of its buckets are made when they are needed.
use native.Mathlib.Nat.{pow-succ', div-lt_iff_lt-mul, pow-le-pow_right}
use amino.Prelude.{
  ℕ, zero, suc, ◌+◌, ◌*◌, ◌^◌, ◌≤◌, ◌<◌, ◌≡◌, refl, sym, ap, arith, ◌∙◌, true, Option, none, some,
  Option-cases, inl, inr,
}
use amino.HashSet.Bits.{bit, two-pow}
use amino.HashSet.Nodes.{SetNode}
use amino.HashSet.Sorted.{Ascending, has}
use amino.HashSet.Table.{Set, cell, dummy, open_bucket}
use amino.HashSet.Buckets.{Fits, with_array, Recells, get_bucket_lem}

-- There are 2 ^ j buckets, in segments of 2 ^ g.
pub record Valid (j g : ℕ) (s : Set) : Type 0 where
  pub size_is : s.size ≡ 2 ^ j
  pub segment_is : s.segment_size ≡ 2 ^ g
  pub wide : j ≤ g + 9
  pub limit : g ≤ 21
  pub ascending : Ascending none s.o_list
  pub first : cell 0 s ≡ some (dummy 0)
  pub points :
      (b : ℕ) (x : SetNode)
      → cell b s ≡ some x
      → (b < 2 ^ j) × (x ≡ dummy b) × (has (dummy b) s.o_list ≡ true)

pub pow_nine : (g : ℕ) → 2 ^ (g + 9) ≡ 512 * 2 ^ g
pow_nine zero = refl
pow_nine (suc g) =
    let next : suc g + 9 ≡ suc (g + 9) = omega arith in
    ap (λ x. 2 ^ x) next ∙ omega (arith, pow-succ' 2 (g + 9), pow-succ' 2 g, pow_nine g)

pub pow_le : {j w : ℕ} → j ≤ w → 2 ^ j ≤ 2 ^ w
pow_le h = pow-le-pow_right (omega arith) h

pub Valid-Fits : {j g b : ℕ} {s : Set} → Valid j g s → b < 2 ^ j → Fits b s
Valid-Fits {j} {g} {b} {s} v h =
    rw (v.segment_is)
      ((div-lt_iff_lt-mul (two-pow g)).1 (omega (arith, pow_le (v.wide), pow_nine g)))

-- `s'` has the elements of `s`: the nodes with odd keys.
pub record Keeps (j g : ℕ) (s s' : Set) : Type 0 where
  pub valid : Valid j g s'
  pub count_same : s'.count ≡ s.count
  pub elements : (x : SetNode) → bit 0 x.key ≡ 1 → has x s'.o_list ≡ has x s.o_list

pub Keeps-trans : {j g : ℕ} {s t u : Set} → Keeps j g s t → Keeps j g t u → Keeps j g s u
Keeps-trans a b = record {
  valid = b.valid;
  count_same = b.count_same ∙ a.count_same;
  elements = λ x h. b.elements x h ∙ a.elements x h;
}

-- New cells, each NULL or the dummy node of its bucket.
pub recelled :
    {j g : ℕ} {s : Set} {new : ℕ → Option SetNode} {f : ℕ → Option (ℕ → Option SetNode)}
    → Valid j g s
    → Recells s new f
    → new 0 ≡ some (dummy 0)
    → ((b : ℕ) (x : SetNode)
        → new b ≡ some x
        → (b < 2 ^ j) × (x ≡ dummy b) × (has (dummy b) s.o_list ≡ true))
    → Keeps j g s (with_array s f)
recelled v r first points = record {
  valid = record {
    size_is = v.size_is;
    segment_is = v.segment_is;
    wide = v.wide;
    limit = v.limit;
    ascending = v.ascending;
    first = r 0 ∙ first;
    points = λ b x h. points b x (sym (r b) ∙ h);
  };
  count_same = refl;
  elements = λ x h. refl;
}

same_cells :
    {j g : ℕ} {s : Set} {f : ℕ → Option (ℕ → Option SetNode)}
    → Valid j g s
    → Recells s (λ c. cell c s) f
    → Keeps j g s (with_array s f)
same_cells v r = recelled v r (v.first) (v.points)

-- The pointer to the dummy node of `b`, if `initialize` makes it.
pub open_bucket_lem :
    {j g : ℕ} {s : Set} (initialize : Set → Option Set) (b : ℕ)
    → Valid j g s
    → b < 2 ^ j
    → ((t : Set)
        → Valid j g t
        → cell b t ≡ none
        → (u : Set) × (initialize t ≡ some u) × Keeps j g t u × (cell b u ≡ some (dummy b)))
    → (u : Set) × (open_bucket initialize b s ≡ some (dummy b, u))
      × Keeps j g s u
      × (cell b u ≡ some (dummy b))
unfolding open_bucket
open_bucket_lem {j} {g} {s} initialize b v h ok =
    let (f, run, cells) = get_bucket_lem b s (Valid-Fits v h) (omega (arith, v.size_is)) in
    let s₁ = with_array s f in
    let k = same_cells v cells in
    elim (Option-cases (cell b s)) [
      | inl null ↦
          let (t, made, kt, at) = ok s₁ (k.valid) (cells b ∙ null) in
          let (f', run', cells') =
            get_bucket_lem b t (Valid-Fits (kt.valid) h) (omega (arith, kt.valid.size_is)) in
          (
            with_array t f',
            rw (run, null, made, run', at) refl,
            Keeps-trans (Keeps-trans k kt) (same_cells (kt.valid) cells'),
            cells' b ∙ at,
          )
      | inr (x, there) ↦
          let (f', run', cells') =
            get_bucket_lem b s₁ (Valid-Fits (k.valid) h) (omega (arith, k.valid.size_is)) in
          let at : cell b s₁ ≡ some (dummy b) =
            cells b ∙ there ∙ ap some ((v.points b x there).1) in
          (
            with_array s₁ f',
            rw (run, there, run', at) refl,
            Keeps-trans k (same_cells (k.valid) cells'),
            cells' b ∙ at,
          )
    ]
