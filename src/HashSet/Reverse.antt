-- ===== src/HashSet/Reverse.antt =====
-- include/amino/lockfree_set.h: `binary_reverse` reverses the 32 bits.
use Prim.Native.Nat.{min, bit_and, bit_or}
use amino.Prelude.{
  ℕ, ◌+◌, ◌-◌, ◌*◌, ◌^◌, ◌≤◌, ◌<◌, ◌≡◌, refl, ap, arith, Bool, true, ◌&&◌, ◌||◌, ◌∙◌, ltb, leb,
  ◌==◌, if◌then◌else◌,
}
use amino.HashSet.Bits.{
  bit, bit_le, bit-or, bit-and, bit-shr, bit-shl, bit-shl_low, bit-mod, bit_high, bit_extensional,
  bit_or_bound, bit_and_le, every_below, every_below-elim,
}
use amino.HashSet.Word.{shl, shr, swap, swap_bytes, binary_reverse}

-- The bit of `n << k`.
bit-shift : (k i n : ℕ) → i < 32 → k ≤ i → bit i (shl n k) ≡ bit (i - k) n
bit-shift k i n h le =
    let e : i ≡ k + (i - k) = omega arith in
    bit-mod 32 i (n * 2 ^ k) h ∙ ap (λ x. bit x (n * 2 ^ k)) e ∙ bit-shl k (i - k) n

bit-shift_low : (k i n : ℕ) → i < 32 → i < k → bit i (shl n k) ≡ 0
bit-shift_low k i n h lt = bit-mod 32 i (n * 2 ^ k) h ∙ bit-shl_low k i n lt

-- The bit of `(n & mask) << k`, and of `(n >> k) & mask`.
bit-up :
    (k mask i n : ℕ)
    → i < 32
    → k ≤ i
    → bit i (shl (bit_and n mask) k) ≡ min (bit (i - k) n) (bit (i - k) mask)
bit-up k mask i n h le = bit-shift k i (bit_and n mask) h le ∙ bit-and (i - k) n mask

bit-down : (k mask i n : ℕ) → bit i (bit_and (shr n k) mask) ≡ min (bit (k + i) n) (bit i mask)
bit-down k mask i n = bit-and i (shr n k) mask ∙ ap (λ x. min x (bit i mask)) (bit-shr k i n)

-- Where `swap` takes the bit `i` from, and that its masks part the word.
abbrev partner : (k mask i : ℕ) → ℕ
partner k mask i = if bit i mask == 1 then k + i else i - k

abbrev parts : (k mask i : ℕ) → Bool
parts k mask i =
    if bit i mask == 1
    then ltb i k || (bit (i - k) mask == 0)
    else (leb k i && (bit (i - k) mask == 1))

bit-swap :
    (k mask i n : ℕ)
    → every_below 32 (parts k mask) ≡ true
    → i < 32
    → bit i (swap k mask n) ≡ bit (partner k mask i) n
unfolding swap
bit-swap k mask i n p h =
    let q : parts k mask i ≡ true = every_below-elim 32 (parts k mask) i p h in
    let low = bit-shift_low k i (bit_and n mask) h in
    let up = bit-up k mask i n h in
    let at = bit-or i (shl (bit_and n mask) k) (bit_and (shr n k) mask) in
    ground (
      arith,
      q,
      low,
      up,
      at,
      bit-down k mask i n,
      bit_le i mask,
      bit_le (i - k) n,
      bit_le (k + i) n,
    )

-- The same for the bytes.
abbrev byte_partner : ℕ → ℕ
byte_partner i =
    if ltb i 8 then 24 + i else if ltb i 16 then 8 + i else if ltb i 24 then i - 8 else i - 24

abbrev second_byte : ℕ → Bool
second_byte i = bit i 0xff00 == (if ltb i 8 then 0 else if ltb i 16 then 1 else 0)

second_byte_all : every_below 32 second_byte ≡ true
unfolding bit every_below
second_byte_all = refl

bit-swap_bytes : (i n : ℕ) → n < 2 ^ 32 → i < 32 → bit i (swap_bytes n) ≡ bit (byte_partner i) n
unfolding swap_bytes
bit-swap_bytes i n small h =
    let a = shl n 24 in
    let b = shl (bit_and n 0xff00) 8 in
    let c = bit_and (shr n 8) 0xff00 in
    let at = bit-or i (bit_or (bit_or a b) c) (shr n 24) in
    let at' = bit-or i (bit_or a b) c in
    let at'' = bit-or i a b in
    ground (
      arith,
      at,
      at',
      at'',
      bit-shr 24 i n,
      bit_high 32 (24 + i) n small,
      bit-shift 24 i n h,
      bit-shift_low 24 i n h,
      bit-down 8 0xff00 i n,
      bit-up 8 0xff00 i n h,
      bit-shift_low 8 i (bit_and n 0xff00) h,
      every_below-elim 32 second_byte i second_byte_all h,
      every_below-elim 32 second_byte (i - 8) second_byte_all (omega arith),
      bit_le (i - 8) n,
      bit_le (i - 24) n,
      bit_le (8 + i) n,
      bit_le (24 + i) n,
    )

swap_bound : (k mask n : ℕ) → mask < 2 ^ 32 → swap k mask n < 2 ^ 32
unfolding swap
swap_bound k mask n h =
    bit_or_bound 32 (shl (bit_and n mask) k) (bit_and (shr n k) mask) (omega arith)
      (omega (arith, bit_and_le (shr n k) mask))

pub binary_reverse_bound : (n : ℕ) → binary_reverse n < 2 ^ 32
unfolding binary_reverse swap_bytes
binary_reverse_bound n =
    let m = swap 4 0x0f0f0f0f (swap 2 0x33333333 (swap 1 0x55555555 n)) in
    let small : m < 2 ^ 32 =
      swap_bound 4 0x0f0f0f0f (swap 2 0x33333333 (swap 1 0x55555555 n)) (omega arith) in
    let a = shl m 24 in
    let b = shl (bit_and m 0xff00) 8 in
    let c = bit_and (shr m 8) 0xff00 in
    bit_or_bound 32 (bit_or (bit_or a b) c) (shr m 24)
      (bit_or_bound 32 (bit_or a b) c (bit_or_bound 32 a b (omega arith) (omega arith))
        (omega (arith, bit_and_le (shr m 8) 0xff00)))
      (omega (arith, small))

abbrev inside : ℕ → Bool
inside i =
    let a = byte_partner i in
    let b = partner 4 0x0f0f0f0f a in
    let c = partner 2 0x33333333 b in
    ltb a 32 && ltb b 32 && ltb c 32 && (partner 1 0x55555555 c == 31 - i)

inside_lem :
    (a b c x y : ℕ)
    → (ltb a 32 && ltb b 32 && ltb c 32 && (x == y)) ≡ true
    → (a < 32) × (b < 32) × (c < 32) × (x ≡ y)
inside_lem a b c x y h = (ground arith, ground arith, ground arith, ground arith)

inside_all : every_below 32 inside ≡ true
unfolding bit every_below
inside_all = refl

masks_part :
    (every_below 32 (parts 1 0x55555555) ≡ true)
    × (every_below 32 (parts 2 0x33333333) ≡ true)
    × (every_below 32 (parts 4 0x0f0f0f0f) ≡ true)
unfolding bit every_below
masks_part = (refl, refl, refl)

pub bit-binary_reverse : (i n : ℕ) → i < 32 → bit i (binary_reverse n) ≡ bit (31 - i) n
unfolding binary_reverse
bit-binary_reverse i n h =
    let (m1, m2, m4) = masks_part in
    let x = swap 1 0x55555555 n in
    let y = swap 2 0x33333333 x in
    let z = swap 4 0x0f0f0f0f y in
    let a = byte_partner i in
    let b = partner 4 0x0f0f0f0f a in
    let c = partner 2 0x33333333 b in
    let (la, lb, lc, e) =
      inside_lem a b c (partner 1 0x55555555 c) (31 - i)
        (every_below-elim 32 inside i inside_all h) in
    bit-swap_bytes i z (swap_bound 4 0x0f0f0f0f y (omega arith)) h
    ∙ bit-swap 4 0x0f0f0f0f a y m4 la
    ∙ bit-swap 2 0x33333333 b x m2 lb
    ∙ bit-swap 1 0x55555555 c n m1 lc
    ∙ ap (λ j. bit j n) e

-- On 32-bit words `binary_reverse` gives a 32-bit word whose bit i is the bit 31 - i of its argument, and it undoes
-- itself, as the assertions of the set say.
pub binary_reverse_twice :
    (n : ℕ)
    → n < 2 ^ 32
    → (binary_reverse n < 2 ^ 32)
      × ((i : ℕ) → i < 32 → bit i (binary_reverse n) ≡ bit (31 - i) n)
      × (binary_reverse (binary_reverse n) ≡ n)
binary_reverse_twice n h =
    let same : (i : ℕ) → i < 32 → bit i (binary_reverse (binary_reverse n)) ≡ bit i n = λ i k.
      let e : 31 - (31 - i) ≡ i = omega arith in
      bit-binary_reverse i (binary_reverse n) k
      ∙ bit-binary_reverse (31 - i) n (omega arith)
      ∙ ap (λ j. bit j n) e in
    (
      binary_reverse_bound n,
      (λ i k. bit-binary_reverse i n k),
      bit_extensional 32 (binary_reverse (binary_reverse n)) n
          (binary_reverse_bound (binary_reverse n)) h same,
    )
