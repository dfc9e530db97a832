-- ===== src/Prelude/Duration.antt =====
-- Go's `time.Duration`, a signed 64-bit number of nanoseconds, and whole milliseconds.
use Prim.Native.Nat.{ℕ, zero, suc, ◌-◌, ◌*◌, ◌/◌, ◌%◌, ◌^◌, ◌<◌}
use mathlib.Core.Path.{◌≡◌}
use mathlib.Core.Bool.{Bool, true, false}
use native.Mathlib.Omega.{arith}
use package.distributed_cache_system.Prelude.Tests.{
  if◌then◌else◌, ltb, ◌==◌, ℤ, pos, negsuc, u64_mod,
}

abbrev pub is_positive : ℤ → Bool
is_positive (pos zero) = false
is_positive (pos (suc n)) = true
is_positive (negsuc n) = false

-- The signed number of a 64-bit pattern.
abbrev pub signed64 : ℕ → ℤ
signed64 p = if ltb p (2 ^ 63) then pos p else negsuc (u64_mod - 1 - p)

-- `time.Duration(ms) * time.Millisecond`, which wraps around.
unfoldable pub from_milliseconds : ℤ → ℤ
from_milliseconds (pos n) = signed64 (n * 1000000 % u64_mod)
from_milliseconds (negsuc n) = signed64 ((u64_mod - suc n * 1000000 % u64_mod) % u64_mod)

-- `d.Milliseconds()`, rounded towards zero.
unfoldable pub milliseconds : ℤ → ℤ
milliseconds (pos n) = pos (n / 1000000)
milliseconds (negsuc n) = let k = suc n / 1000000 in if k == 0 then pos 0 else negsuc (k - 1)

-- A number of milliseconds that fits comes back.
pub milliseconds-from_milliseconds :
    (n : ℕ) → n * 1000000 < 2 ^ 63 → milliseconds (from_milliseconds (pos n)) ≡ pos n
unfolding milliseconds from_milliseconds
milliseconds-from_milliseconds n h = ground arith
