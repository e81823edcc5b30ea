-- ===== src/HashSet/Parent.antt =====
-- include/amino/lockfree_set.h: `getLargestValue` keeps the highest bit, and `get_parent` clears it.
use Prim.Native.Nat.{max}
use native.Mathlib.Nat.{pow-succ', mod-eq-sub-mod, mod-eq_of_lt, div-le_self}
use amino.Prelude.{
  ℕ, zero, suc, ◌+◌, ◌-◌, ◌/◌, ◌%◌, ◌^◌, ◌≤◌, ◌<◌, ◌≡◌, sym, ap, arith, ◌∙◌, ltb, Bool-cases, inl,
  inr,
}
use amino.HashSet.Bits.{bit, bit_le, bit-or, bit-shr, bit_or_bound}
use amino.HashSet.Word.{shr, smear, get_largest_value, get_parent}

pub top_bit : (w n : ℕ) → 1 ≤ n → n < 2 ^ w → (k : ℕ) × (k < w) × (2 ^ k ≤ n) × (n < 2 ^ suc k)
top_bit zero n h k = absurd (omega arith)
top_bit (suc w) n h k = elim (Bool-cases (ltb n (2 ^ w))) [
  | inl less ↦ let (j, a, b, c) = top_bit w n h (ground arith) in (j, omega arith, b, c)
  | inr more ↦ (w, omega arith, ground arith, k)
]

bit-top : (k n : ℕ) → 2 ^ k ≤ n → n < 2 ^ suc k → bit k n ≡ 1
unfolding bit
bit-top zero n a b = omega arith
bit-top (suc k) n a b =
    bit-top k (n / 2) (omega (arith, pow-succ' 2 k)) (omega (arith, pow-succ' 2 (suc k)))

-- The bits from k downwards are set, `w` of them.
record Full (w k n : ℕ) : Type 0 where
  bound : n < 2 ^ suc k
  ones : (i : ℕ) → i ≤ k → k < i + w → bit i n ≡ 1

smear-Full : (w k n : ℕ) → Full w k n → Full (w + w) k (smear w n)
unfolding smear
smear-Full w k n f = record {
  bound = bit_or_bound (suc k) n (shr n w) f.bound (omega (arith, f.bound, div-le_self n (2 ^ w)));
  ones = λ i a b.
      let at = bit-or i n (shr n w) ∙ ap (max (bit i n)) (bit-shr w i n) in
      ground (arith, at, f.ones i a, f.ones (w + i), bit_le i n, bit_le (w + i) n);
}

all_ones : (w n : ℕ) → n < 2 ^ w → ((i : ℕ) → i < w → bit i n ≡ 1) → n + 1 ≡ 2 ^ w
unfolding bit
all_ones zero n h f = omega arith
all_ones (suc w) n h f =
    let half = all_ones w (n / 2) (omega (arith, pow-succ' 2 w)) (λ i k. f (suc i) (omega arith)) in
    omega (arith, half, f 0 (omega arith), pow-succ' 2 w)

pub largest_lem : (k n : ℕ) → k < 32 → 2 ^ k ≤ n → n < 2 ^ suc k → get_largest_value n ≡ 2 ^ k
unfolding get_largest_value
largest_lem k n h a b =
    let f : Full 1 k n = record {
      bound = b;
      ones = λ i p q. let e : i ≡ k = omega arith in rw e (bit-top k n a b);
    } in
    let g =
      smear-Full 16 k _
        (smear-Full 8 k _ (smear-Full 4 k _ (smear-Full 2 k _ (smear-Full 1 k n f)))) in
    omega (
      arith,
      pow-succ' 2 k,
      all_ones (suc k) _ g.bound (λ i p. g.ones i (omega arith) (omega arith)),
    )

pub parent_mod : (k b : ℕ) → k < 32 → 2 ^ k ≤ b → b < 2 ^ suc k → get_parent b ≡ b % 2 ^ k
unfolding get_parent
parent_mod k b h lo hi =
    ap (λ x. b - x) (largest_lem k b h lo hi)
    ∙ sym (mod-eq-sub-mod lo ∙ mod-eq_of_lt (omega (arith, pow-succ' 2 k)))
