-- ===== src/HashSet/Bits.antt =====
-- The bits of numbers, for include/amino/lockfree_set.h.
use Prim.Native.Nat.{min, max, digits, bitwise, bit_and, bit_or, bit_and-bitwise, bit_or-bitwise}
use native.Mathlib.Nat.{
  le_refl, pow-succ', one-le-pow, div-div-eq-div-mul, add-mul-mod_self_left, mod-eq_of_lt,
  div-add-mod, mod-lt,
}
use amino.Prelude.{
  ℕ, zero, suc, ◌+◌, ◌*◌, ◌/◌, ◌%◌, ◌^◌, ◌≤◌, ◌<◌, ◌≡◌, refl, sym, ap, arith, Bool, true, ◌&&◌, ◌∙◌,
}

-- The digit of `n` that stands for 2 ^ i.
unfoldable pub bit : ℕ → ℕ → ℕ
bit zero n = n % 2
bit (suc i) n = bit i (n / 2)

unfoldable pub every_below : ℕ → (ℕ → Bool) → Bool
every_below zero p = true
every_below (suc n) p = p n && every_below n p

pub every_below-elim : (n : ℕ) (p : ℕ → Bool) (x : ℕ) → every_below n p ≡ true → x < n → p x ≡ true
unfolding every_below
every_below-elim zero p x h lt = absurd (omega arith)
every_below-elim (suc n) p x h lt = let before = every_below-elim n p x in ground (arith, before)

-- `digits` does not depend on its fuel, which is the first number at least.
settled :
    (zeros : ℕ → ℕ) (op : ℕ → ℕ → ℕ) (w fuel a b : ℕ)
    → fuel ≤ w
    → a ≤ fuel
    → digits zeros op fuel a b ≡ bitwise zeros op a b
settled zeros op w zero zero b p q = refl
settled zeros op w (suc fuel) zero b p q = refl
settled zeros op w zero (suc a) b p q = absurd (omega arith)
settled zeros op zero (suc fuel) (suc a) b p q = absurd (omega arith)
settled zeros op (suc w) (suc fuel) (suc a) b p q =
    let half = suc a / 2 in
    let long = settled zeros op w fuel half (b / 2) (omega arith) (omega arith) in
    let short = settled zeros op w a half (b / 2) (omega arith) (omega arith) in
    ap (λ rest. rest * 2 + op (suc a % 2) (b % 2)) (long ∙ sym short)

last_or : (a b : ℕ) → bit_or a b ≡ bit_or (a / 2) (b / 2) * 2 + max (a % 2) (b % 2)
last_or zero b = rw (bit_or-bitwise 0 b, bit_or-bitwise 0 (b / 2)) (omega arith)
last_or (suc a) b =
    let half = suc a / 2 in
    let lower = settled (λ y. y) max a a half (b / 2) (omega arith) (omega arith) in
    omega (arith, bit_or-bitwise (suc a) b, bit_or-bitwise half (b / 2), lower)

last_and : (a b : ℕ) → bit_and a b ≡ bit_and (a / 2) (b / 2) * 2 + min (a % 2) (b % 2)
last_and zero b = rw (bit_and-bitwise 0 b, bit_and-bitwise 0 (b / 2)) (omega arith)
last_and (suc a) b =
    let half = suc a / 2 in
    let lower = settled (λ y. 0) min a a half (b / 2) (omega arith) (omega arith) in
    omega (arith, bit_and-bitwise (suc a) b, bit_and-bitwise half (b / 2), lower)

pub two-pow : (k : ℕ) → 1 ≤ 2 ^ k
two-pow k = one-le-pow k 2 (omega arith)

pub bit_le : (i n : ℕ) → bit i n ≤ 1
unfolding bit
bit_le zero n = omega arith
bit_le (suc i) n = bit_le i (n / 2)

pub bit-or : (i a b : ℕ) → bit i (bit_or a b) ≡ max (bit i a) (bit i b)
unfolding bit
bit-or zero a b = omega (arith, last_or a b)
bit-or (suc i) a b =
    let half : bit_or a b / 2 ≡ bit_or (a / 2) (b / 2) = omega (arith, last_or a b) in
    ap (bit i) half ∙ bit-or i (a / 2) (b / 2)

pub bit-and : (i a b : ℕ) → bit i (bit_and a b) ≡ min (bit i a) (bit i b)
unfolding bit
bit-and zero a b = omega (arith, last_and a b)
bit-and (suc i) a b =
    let half : bit_and a b / 2 ≡ bit_and (a / 2) (b / 2) = omega (arith, last_and a b) in
    ap (bit i) half ∙ bit-and i (a / 2) (b / 2)

div-pow-suc : (n k : ℕ) → n / 2 ^ suc k ≡ n / 2 / 2 ^ k
div-pow-suc n k = sym (div-div-eq-div-mul n 2 (2 ^ k) ∙ ap (λ x. n / x) (sym (pow-succ' 2 k)))

zero_add : (i : ℕ) → 0 + i ≡ i
zero_add i = omega arith

div_one : (n : ℕ) → n / 2 ^ 0 ≡ n
div_one n = omega arith

mul_one : (n : ℕ) → n * 2 ^ 0 ≡ n
mul_one n = omega arith

suc_add : (k i : ℕ) → suc k + i ≡ suc (k + i)
suc_add k i = omega arith

pub bit-shr : (k i n : ℕ) → bit i (n / 2 ^ k) ≡ bit (k + i) n
unfolding bit
bit-shr zero i n = rw (div_one n, zero_add i) refl
bit-shr (suc k) i n =
    ap (bit i) (div-pow-suc n k) ∙ bit-shr k i (n / 2) ∙ ap (λ x. bit x n) (sym (suc_add k i))

mul-pow-suc : (n k : ℕ) → n * 2 ^ suc k ≡ 2 * (n * 2 ^ k)
mul-pow-suc n k = omega (arith, ap (λ (t : ℕ). n * t) (pow-succ' 2 k))

half_shl : (k n : ℕ) → n * 2 ^ suc k / 2 ≡ n * 2 ^ k
half_shl k n = omega (arith, mul-pow-suc n k)

pub bit-shl : (k i n : ℕ) → bit (k + i) (n * 2 ^ k) ≡ bit i n
unfolding bit
bit-shl zero i n = rw (mul_one n, zero_add i) refl
bit-shl (suc k) i n =
    ap (λ x. bit x (n * 2 ^ suc k)) (suc_add k i) ∙ ap (bit (k + i)) (half_shl k n) ∙ bit-shl k i n

pub bit-shl_low : (k i n : ℕ) → i < k → bit i (n * 2 ^ k) ≡ 0
unfolding bit
bit-shl_low zero i n h = absurd (omega arith)
bit-shl_low (suc k) zero n h = omega (arith, mul-pow-suc n k)
bit-shl_low (suc k) (suc i) n h =
    ap (bit i) (omega (arith, mul-pow-suc n k)) ∙ bit-shl_low k i n (omega arith)

mod_double : (n m : ℕ) → 1 ≤ m → n % (2 * m) ≡ 2 * (n / 2 % m) + n % 2
mod_double n m h =
    let r = 2 * (n / 2 % m) + n % 2 in
    let e : n ≡ r + 2 * m * (n / 2 / m) = grind (arith, div-add-mod (n / 2) m) in
    let small : n / 2 % m < m = mod-lt (n / 2) (omega arith) in
    ap (λ x. x % (2 * m)) e
    ∙ add-mul-mod_self_left r (2 * m) (n / 2 / m)
    ∙ mod-eq_of_lt (omega arith)

half_mod : (n m : ℕ) → 1 ≤ m → n % (2 * m) / 2 ≡ n / 2 % m
half_mod n m h = omega (arith, mod_double n m h)

pub bit-mod : (w i n : ℕ) → i < w → bit i (n % 2 ^ w) ≡ bit i n
unfolding bit
bit-mod zero i n h = absurd (omega arith)
bit-mod (suc w) zero n h =
    ap (λ x. n % x % 2) (pow-succ' 2 w) ∙ omega (arith, mod_double n (2 ^ w) (two-pow w))
bit-mod (suc w) (suc i) n h =
    ap (bit i) (ap (λ x. n % x / 2) (pow-succ' 2 w) ∙ half_mod n (2 ^ w) (two-pow w))
    ∙ bit-mod w i (n / 2) (omega arith)

pub bit_high : (w i n : ℕ) → n < 2 ^ w → w ≤ i → bit i n ≡ 0
unfolding bit
bit_high zero zero n h k = omega arith
bit_high zero (suc i) n h k = bit_high zero i (n / 2) (omega arith) (omega arith)
bit_high (suc w) zero n h k = absurd (omega arith)
bit_high (suc w) (suc i) n h k = bit_high w i (n / 2) (omega (arith, pow-succ' 2 w)) (omega arith)

-- Numbers below 2 ^ w with the same bits are equal.
pub bit_extensional :
    (w a b : ℕ) → a < 2 ^ w → b < 2 ^ w → ((i : ℕ) → i < w → bit i a ≡ bit i b) → a ≡ b
unfolding bit
bit_extensional zero a b ha hb h = omega arith
bit_extensional (suc w) a b ha hb h =
    let half =
      bit_extensional w (a / 2) (b / 2) (omega (arith, pow-succ' 2 w))
        (omega (arith, pow-succ' 2 w)) (λ i k. h (suc i) (omega arith)) in
    omega (arith, half, h 0 (omega arith))

pub bit_or_bound : (w a b : ℕ) → a < 2 ^ w → b < 2 ^ w → bit_or a b < 2 ^ w
bit_or_bound zero zero zero ha hb = omega arith
bit_or_bound zero zero (suc b) ha hb = absurd (omega arith)
bit_or_bound zero (suc a) b ha hb = absurd (omega arith)
bit_or_bound (suc w) a b ha hb = omega (
  arith,
  last_or a b,
  pow-succ' 2 w,
  bit_or_bound w (a / 2) (b / 2) (omega (arith, pow-succ' 2 w)) (omega (arith, pow-succ' 2 w)),
)

zero-bit_and : (b : ℕ) → bit_and 0 b ≡ 0
zero-bit_and b = simp bit_and-bitwise refl

bit_and_le_fuel : (n a b : ℕ) → a ≤ n → bit_and a b ≤ b
bit_and_le_fuel n zero b h = rw (zero-bit_and b) (omega arith)
bit_and_le_fuel zero (suc a) b h = absurd (omega arith)
bit_and_le_fuel (suc n) (suc a) b h =
    omega (arith, last_and (suc a) b, bit_and_le_fuel n (suc a / 2) (b / 2) (omega arith))

pub bit_and_le : (a b : ℕ) → bit_and a b ≤ b
bit_and_le a b = bit_and_le_fuel a a b (le_refl a)
