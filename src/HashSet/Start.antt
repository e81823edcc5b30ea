-- ===== src/HashSet/Start.antt =====
-- include/amino/lockfree_set.h: the constructor makes an empty set.
use mathlib.Core.Option.{some-injective}
use native.Mathlib.Nat.{pow-succ', mod-eq_of_lt, zero-div}
use amino.Prelude.{
  ℕ, suc, ◌*◌, ◌/◌, ◌^◌, ◌≤◌, ◌<◌, ◌≡◌, refl, sym, ap, subst, arith, ◌∙◌, Bool, true, [], ◌∷◌, none,
  some, Bool-cases, ltb, contains, inl, inr, ◌==◌, if◌then◌else◌, update, update-elim,
}
use amino.HashSet.Word.{get_largest_value, shl}
use amino.HashSet.Parent.{top_bit, largest_lem}
use amino.HashSet.Order.{regular_odd}
use amino.HashSet.Nodes.{SetNode, add_at}
use amino.HashSet.Sorted.{has}
use amino.HashSet.Table.{Set, set_bucket, cell, dummy, regular, init}
use amino.HashSet.Buckets.{with_array, set_bucket_lem}
use amino.HashSet.Valid.{Valid, pow_le}
use amino.HashSet.Initialize.{dummy_other}
use amino.HashSet.Answers.{Holds}

largest_zero : shl (get_largest_value 0) 1 ≡ 0
unfolding get_largest_value
largest_zero = refl

-- The size of a segment is a power of two.
segment_lem :
    (n : ℕ)
    → n < 2 ^ 30
    → let wanted = shl (get_largest_value (n / 512)) 1 in
      (g : ℕ) × (g ≤ 21) × ((if ltb wanted 8 then 8 else wanted) ≡ 2 ^ g)
segment_lem n h = elim (Bool-cases (n / 512 == 0)) [
  | inl none_wanted ↦
      let e : n / 512 ≡ 0 = ground arith in
      (3, omega arith, rw (ap (λ z. shl (get_largest_value z) 1) e ∙ largest_zero) refl)
  | inr some_wanted ↦
      let pos : 1 ≤ n / 512 = ground arith in
      let (k, lt, lo, hi) = top_bit 21 (n / 512) pos (omega arith) in
      let fits : 2 ^ k * 2 < 2 ^ 32 = omega (arith, pow_le {j = k} {w = 21} (omega (arith, lt))) in
      let e : shl (get_largest_value (n / 512)) 1 ≡ 2 ^ suc k =
        ap (λ z. shl z 1) (largest_lem k (n / 512) (omega (arith, lt)) lo hi)
        ∙ mod-eq_of_lt fits
        ∙ omega (arith, pow-succ' 2 k) in
      elim (Bool-cases (ltb (2 ^ suc k) 8)) [
        | inl few ↦ (3, omega arith, rw (e, few) refl)
        | inr many ↦ (suc k, omega (arith, lt), rw (e, many) refl)
      ]
]

abbrev fresh : ℕ → (ℕ → Bool) → Set
fresh size over = record {
  size = 2;
  count = 0;
  segment_size = size;
  over = over;
  main_array = λ _. none;
  o_list = dummy 0 ∷ [];
}

has-dummy : has (dummy 0) (dummy 0 ∷ []) ≡ true
unfolding has
has-dummy = ground arith

-- The only pointer is that to the dummy node of the bucket 0.
fresh_points :
    (size : ℕ) (over : ℕ → Bool) (b : ℕ) (x : SetNode)
    → update (λ c. cell c (fresh size over)) 0 (some (dummy 0)) b ≡ some x
    → (b < 2 ^ 1) × (x ≡ dummy b) × (has (dummy b) (dummy 0 ∷ []) ≡ true)
fresh_points size over b x =
    update-elim
      (λ z. z ≡ some x → (b < 2 ^ 1) × (x ≡ dummy b) × (has (dummy b) (dummy 0 ∷ []) ≡ true))
      (λ c. cell c (fresh size over)) 0 (some (dummy 0)) b
      (λ q there.
        subst (λ c. (c < 2 ^ 1) × (x ≡ dummy c) × (has (dummy c) (dummy 0 ∷ []) ≡ true)) q
          (omega arith, sym (some-injective _ _ there), has-dummy))
      (λ _ there. absurd (ground (arith, there)))

fresh_lem :
    (hash : ℕ → ℕ) (size g : ℕ) (over : ℕ → Bool)
    → size ≡ 2 ^ g
    → g ≤ 21
    → (s : Set) × (set_bucket 0 (some (dummy 0)) (fresh size over) ≡ some s)
      × Valid 1 g s
      × Holds hash s []
unfolding has contains
fresh_lem hash size g over e le =
    let fits : 0 / size < 512 = subst (λ z. z < 512) (sym (zero-div size)) (omega arith) in
    let (f, run, cells) = set_bucket_lem 0 (some (dummy 0)) (fresh size over) fits in
    let s = with_array (fresh size over) f in
    let v : Valid 1 g s = record {
      size_is = refl;
      segment_is = e;
      wide = omega arith;
      limit = le;
      ascending = (refl, tt);
      first =
          cells 0
          ∙ update-elim (λ z. z ≡ some (dummy 0)) (λ c. cell c (fresh size over)) 0 (some (dummy 0))
              0 (λ _. refl) (λ ne. absurd (ne refl));
      points = λ b x k. fresh_points size over b x (sym (cells b) ∙ k);
    } in
    let m : Holds hash s [] = record {
      members =
          λ x. ground (arith, dummy_other 0 (regular hash x) (omega arith) (regular_odd (hash x)));
      counted = refl;
      distinct = tt;
    } in
    (s, run, v, m)

pub init_lem :
    (hash : ℕ → ℕ) (n : ℕ) (over : ℕ → Bool)
    → n < 2 ^ 30
    → (g : ℕ) × (s : Set) × (init n over ≡ some s) × Valid 1 g s × Holds hash s []
unfolding init add_at
init_lem hash n over h =
    let (g, le, e) = segment_lem n h in
    let wanted = shl (get_largest_value (n / 512)) 1 in
    let (s, run, v, m) = fresh_lem hash (if ltb wanted 8 then 8 else wanted) g over e le in
    (g, s, run, v, m)
