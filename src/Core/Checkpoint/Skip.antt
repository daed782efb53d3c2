-- ===== src/Core/Checkpoint/Skip.antt =====
-- `skip_index` of `crates/core/src/checkpoint.rs` points strictly back.
use Prim.Native.Nat.{digits, bit_and-bitwise}
use bdk.Prelude.{ℕ, zero, suc, ◌+◌, ◌-◌, ◌/◌, ◌%◌, ◌≤◌, ◌<◌, ◌≡◌, bit_and, min, arith}
use bdk.Core.Checkpoint.{u32_mod, invert_lowest_one, skip_index}

abbrev and_digits : ℕ → ℕ → ℕ → ℕ
and_digits n a b = digits (λ b. zero) min n a b

and_digits-le : (n a b : ℕ) → and_digits n a b ≤ b
and_digits-le zero zero b = omega arith
and_digits-le zero (suc a) b = omega arith
and_digits-le (suc n) zero b = omega arith
and_digits-le (suc n) (suc a) b = omega (arith, and_digits-le n (suc a / 2) (b / 2))

bit_and-le : (a b : ℕ) → bit_and a b ≤ b
bit_and-le zero b = omega (arith, bit_and-bitwise zero b)
bit_and-le (suc a) b = omega (arith, bit_and-bitwise (suc a) b, and_digits-le (suc a) (suc a) b)

zero-bit_and : (b : ℕ) → bit_and 0 b ≡ 0
zero-bit_and b = bit_and-bitwise 0 b

-- Clearing the lowest set bit gives a smaller number; 0 stays 0.
invert_lowest_one-le : (n : ℕ) → invert_lowest_one n ≤ n - 1
invert_lowest_one-le zero = omega (arith, zero-bit_and ((0 + u32_mod - 1) % u32_mod))
invert_lowest_one-le (suc n) = omega (arith, bit_and-le (suc n) ((suc n + u32_mod - 1) % u32_mod))

-- Every index above 0 has a skip index below it.
pub skip_index-lt : (i : ℕ) → 0 < i → skip_index i < i
unfolding skip_index
skip_index-lt i h = ground (
  arith,
  invert_lowest_one-le i,
  invert_lowest_one-le (i - 1),
  invert_lowest_one-le (invert_lowest_one (i - 1)),
)
