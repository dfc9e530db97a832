-- ===== src/Hash/Mask.antt =====
-- `h & mask`, the shard of a hash.
use Prim.Native.Nat.{min, bit_and, digits, bit_and-bitwise}
use distributed_cache_system.Prelude.{ℕ, zero, suc, ◌/◌, ◌≤◌, arith}

-- The digits of a conjunction, whatever the number of digits read.
masked_digits-le : (n a b : ℕ) → digits (λ b. zero) min n a b ≤ b
masked_digits-le zero a b = omega arith
masked_digits-le (suc n) zero b = omega arith
masked_digits-le (suc n) (suc a) b = omega (arith, masked_digits-le n (suc a / 2) (b / 2))

pub bit_and-le : (a b : ℕ) → bit_and a b ≤ b
bit_and-le a b = omega (arith, bit_and-bitwise a b, masked_digits-le a a b)
