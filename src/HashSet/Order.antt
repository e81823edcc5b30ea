-- ===== src/HashSet/Order.antt =====
-- include/amino/lockfree_set.h: where the nodes of a bucket stand in the ordered list.
use Prim.Native.Nat.{bit_or}
use native.Mathlib.Nat.{mod-eq_of_lt, mod-lt, div-add-mod', pow-le-pow_right, mul-le-mul_right}
use amino.Prelude.{
  ℕ, suc, ◌+◌, ◌-◌, ◌*◌, ◌/◌, ◌%◌, ◌^◌, ◌≤◌, ◌<◌, ◌≡◌, ◌≢◌, ◌↔◌, refl, sym, ap, arith, ◌∙◌, ltb,
  ltb→lt, Bool-cases, inl, inr,
}
use amino.HashSet.Bits.{
  bit, bit_le, bit-or, bit-shr, bit-shl, bit-shl_low, bit-mod, bit_high, bit_extensional,
  bit_or_bound, two-pow,
}
use amino.HashSet.Word.{binary_reverse, dummy_key, regular_key, get_parent}
use amino.HashSet.Reverse.{binary_reverse_bound, bit-binary_reverse, binary_reverse_twice}
use amino.HashSet.Parent.{top_bit, parent_mod}

abbrev pub floor : (m n : ℕ) → ℕ
floor m n = n / 2 ^ m * 2 ^ m

bit-floor : (m i n : ℕ) → m ≤ i → bit i (floor m n) ≡ bit i n
bit-floor m i n h =
    let e : i ≡ m + (i - m) = omega arith in
    ap (λ x. bit x (floor m n)) e
    ∙ bit-shl m (i - m) (n / 2 ^ m)
    ∙ bit-shr m (i - m) n
    ∙ ap (λ x. bit x n) (sym e)

floor_le : (m n : ℕ) → floor m n ≤ n
floor_le m n = omega (arith, div-add-mod' n (2 ^ m))

floor_near : (m n : ℕ) → n < floor m n + 2 ^ m
floor_near m n = omega (arith, div-add-mod' n (2 ^ m), mod-lt n (two-pow m))

-- To drop the high bits of a number is to drop the low bits of its reversal.
reverse_floor :
    (j n : ℕ) → n < 2 ^ 32 → j ≤ 32 → binary_reverse (n % 2 ^ j) ≡ floor (32 - j) (binary_reverse n)
reverse_floor j n h le =
    let m = 32 - j in
    let r = binary_reverse n in
    let small : floor m r < 2 ^ 32 = omega (arith, floor_le m r, binary_reverse_bound n) in
    bit_extensional 32 (binary_reverse (n % 2 ^ j)) (floor m r) (binary_reverse_bound (n % 2 ^ j))
      small
      (λ i k. bit-binary_reverse i (n % 2 ^ j) k ∙ elim (Bool-cases (ltb i m)) [
        | inl lo ↦
            bit_high j (31 - i) (n % 2 ^ j) (mod-lt n (two-pow j)) (ground arith)
            ∙ sym (bit-shl_low m i (r / 2 ^ m) (ground arith))
        | inr hi ↦
            bit-mod j (31 - i) n (ground arith)
            ∙ sym (bit-floor m i r (ground arith) ∙ bit-binary_reverse i n k)
      ])

reverse_injective :
    (a b : ℕ) → a < 2 ^ 32 → b < 2 ^ 32 → binary_reverse a ≡ binary_reverse b → a ≡ b
reverse_injective a b ha hb e =
    sym ((binary_reverse_twice a ha).2) ∙ ap binary_reverse e ∙ (binary_reverse_twice b hb).2

reverse_lt :
    (j n : ℕ) → n < 2 ^ 32 → j ≤ 32 → 2 ^ j ≤ n → binary_reverse (n % 2 ^ j) < binary_reverse n
reverse_lt j n h le big =
    let small : n % 2 ^ j < 2 ^ j = mod-lt n (two-pow j) in
    let e = reverse_floor j n h le in
    let ne : binary_reverse (n % 2 ^ j) ≢ binary_reverse n =
      λ q. let p = reverse_injective (n % 2 ^ j) n (omega arith) h q in omega (arith, p) in
    omega (arith, e, ne, floor_le (32 - j) (binary_reverse n))

-- For a bucket b other than 0 below 2 ^ 32, there is k, the highest bit of b, such that the parent is b without that bit;
-- the parent is less than b, and its dummy node stands before that of b.
pub get_parent_lem :
    (b : ℕ)
    → 1 ≤ b
    → b < 2 ^ 32
    → (k : ℕ) × (2 ^ k ≤ b)
      × (b < 2 ^ suc k)
      × (get_parent b ≡ b % 2 ^ k)
      × (get_parent b < b)
      × (dummy_key (get_parent b) < dummy_key b)
unfolding dummy_key
get_parent_lem b pos h =
    let (k, w, lo, hi) = top_bit 32 b pos h in
    let e = parent_mod k b w lo hi in
    let small : b % 2 ^ k < 2 ^ k = mod-lt b (two-pow k) in
    let order = reverse_lt k b h (omega arith) lo in (k, lo, hi, e, omega (arith, e), rw e order)

top_mask : (key : ℕ) → key < 2 ^ 32 → bit_or key 0x80000000 < 2 ^ 32
top_mask key h = bit_or_bound 32 key 0x80000000 h (omega arith)

pow_le : (j w : ℕ) → j ≤ w → 2 ^ j ≤ 2 ^ w
pow_le j w h = pow-le-pow_right (omega arith) h

top_set : bit 31 0x80000000 ≡ 1
unfolding bit
top_set = refl

top_mask_le : (key : ℕ) → 2 ^ 31 ≤ bit_or key 0x80000000
top_mask_le key = elim (Bool-cases (ltb (bit_or key 0x80000000) (2 ^ 31))) [
  | inl less ↦ absurd (
      omega (
        arith,
        bit-or 31 key 0x80000000,
        top_set,
        bit_high 31 31 (bit_or key 0x80000000) (ground arith) (omega arith),
      ))
  | inr more ↦ ground arith
]

floor_mono : (m a b : ℕ) → a ≤ b → floor m a ≤ floor m b
floor_mono m a b h = elim (Bool-cases (ltb (b / 2 ^ m) (a / 2 ^ m))) [
  | inl less ↦
      absurd (grind (arith, floor_le m a, floor_near m b, ltb→lt (b / 2 ^ m) (a / 2 ^ m) less))
  | inr more ↦ mul-le-mul_right (2 ^ m) (ground arith)
]

low_bits_kept : (j key : ℕ) → j ≤ 31 → bit_or key 0x80000000 % 2 ^ j ≡ key % 2 ^ j
low_bits_kept j key h =
    bit_extensional j (bit_or key 0x80000000 % 2 ^ j) (key % 2 ^ j) (mod-lt _ (two-pow j))
      (mod-lt _ (two-pow j))
      (λ i k.
        bit-mod j i (bit_or key 0x80000000) k
        ∙ bit-or i key 0x80000000
        ∙ omega (arith, bit-shl_low 31 i 1 (omega arith))
        ∙ sym (bit-mod j i key k))

-- With 2 ^ j buckets, j at most 31, b the bucket of a 32-bit key, and c any bucket: the key of b's dummy node is the
-- key of the element without its last 32 - j bits; the dummy node of b stands before the element; and that of c
-- stands before the element exactly if it stands before b's or is it, so no other bucket begins between
-- b and the element.
pub split_order :
    (j key c : ℕ)
    → j ≤ 31
    → key < 2 ^ 32
    → c < 2 ^ j
    → (dummy_key (key % 2 ^ j) ≡ floor (32 - j) (regular_key key))
      × (dummy_key (key % 2 ^ j) < regular_key key)
      × ((dummy_key c < regular_key key) ↔ (dummy_key c ≤ dummy_key (key % 2 ^ j)))
unfolding dummy_key regular_key
split_order j key c hj hk hc =
    let x = bit_or key 0x80000000 in
    let r = binary_reverse x in
    let m = 32 - j in
    let whole : 2 ^ j ≤ x = omega (arith, top_mask_le key, pow_le j 31 hj) in
    let kept = ap binary_reverse (low_bits_kept j key hj) in
    let at : binary_reverse (key % 2 ^ j) ≡ floor m r =
      sym kept ∙ reverse_floor j x (top_mask key hk) (omega arith) in
    let lt : binary_reverse (key % 2 ^ j) < r =
      omega (arith, kept, reverse_lt j x (top_mask key hk) (omega arith) whole) in
    let own : binary_reverse c ≡ floor m (binary_reverse c) =
      ap binary_reverse (sym (mod-eq_of_lt hc))
      ∙ reverse_floor j c (omega (arith, pow_le j 31 hj)) (omega arith) in
    (
      at,
      lt,
      (
        (λ q. omega (arith, own, at, floor_mono m (binary_reverse c) r (omega arith))),
        λ q. omega (arith, lt),
      ),
    )

-- The keys of dummy nodes are even, those of elements odd.
pub dummy_even : (b : ℕ) → b < 2 ^ 31 → bit 0 (dummy_key b) ≡ 0
unfolding dummy_key
dummy_even b h = bit-binary_reverse 0 b (omega arith) ∙ bit_high 31 31 b h (omega arith)

pub regular_odd : (key : ℕ) → bit 0 (regular_key key) ≡ 1
unfolding regular_key
regular_odd key =
    bit-binary_reverse 0 (bit_or key 0x80000000) (omega arith)
    ∙ bit-or 31 key 0x80000000
    ∙ omega (arith, top_set, bit_le 31 key)
