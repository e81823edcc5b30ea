-- ===== src/HashSet/Word.antt =====
-- include/amino/lockfree_set.h: the arithmetic on unsigned integers, which have 32 bits.
use Prim.Native.Nat.{bit_and, bit_or}
use amino.Prelude.{ℕ, ◌-◌, ◌*◌, ◌/◌, ◌%◌, ◌^◌}

-- `n << k`, which drops the bits that leave the word, and `n >> k`.
abbrev pub shl : ℕ → ℕ → ℕ
shl n k = n * 2 ^ k % 2 ^ 32

abbrev pub shr : ℕ → ℕ → ℕ
shr n k = n / 2 ^ k

-- One round of `getLargestValue` and of `binary_reverse`.
unfoldable pub smear : (k n : ℕ) → ℕ
smear k n = bit_or n (shr n k)

unfoldable pub swap : (k mask n : ℕ) → ℕ
swap k mask n = bit_or (shl (bit_and n mask) k) (bit_and (shr n k) mask)

unfoldable pub swap_bytes : ℕ → ℕ
swap_bytes n =
    bit_or (bit_or (bit_or (shl n 24) (shl (bit_and n 0xff00) 8)) (bit_and (shr n 8) 0xff00))
      (shr n 24)

unfoldable pub get_largest_value : ℕ → ℕ
unfolding smear
get_largest_value n =
    let ones = smear 16 (smear 8 (smear 4 (smear 2 (smear 1 n)))) in ones - shr ones 1

unfoldable pub binary_reverse : ℕ → ℕ
unfolding swap swap_bytes
binary_reverse n = swap_bytes (swap 4 0x0f0f0f0f (swap 2 0x33333333 (swap 1 0x55555555 n)))

unfoldable pub dummy_key : ℕ → ℕ
unfolding binary_reverse
dummy_key key = binary_reverse key

unfoldable pub regular_key : ℕ → ℕ
unfolding binary_reverse
regular_key key = binary_reverse (bit_or key 0x80000000)

unfoldable pub get_parent : ℕ → ℕ
unfolding get_largest_value
get_parent bucket = bucket - get_largest_value bucket
