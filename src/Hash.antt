-- ===== src/Hash.antt =====
-- The FNV-1a hashes of Go's `hash/fnv`.
pub mod Mask
use Prim.Native.Nat.{bit_xor}
use distributed_cache_system.Prelude.{
  ℕ, ◌*◌, ◌%◌, ◌<◌, ◌≡◌, List, [], ◌∷◌, Str, arith, u32_mod, u64_mod,
}

-- `for b in s { h ^= b; h *= 16777619 }` on a `uint32`.
unfoldable pub fnv32_from : ℕ → Str → ℕ
fnv32_from h [] = h
fnv32_from h (b ∷ s) = fnv32_from (bit_xor h b * 16777619 % u32_mod) s

unfoldable pub fnv32a : Str → ℕ
unfolding fnv32_from
fnv32a s = fnv32_from 2166136261 s

unfoldable pub fnv64_from : ℕ → Str → ℕ
fnv64_from h [] = h
fnv64_from h (b ∷ s) = fnv64_from (bit_xor h b * 1099511628211 % u64_mod) s

unfoldable pub fnv64a : Str → ℕ
unfolding fnv64_from
fnv64a s = fnv64_from 14695981039346656037 s

fnv32_from-lt : (s : Str) (h : ℕ) → h < u32_mod → fnv32_from h s < u32_mod
unfolding fnv32_from
fnv32_from-lt [] h p = p
fnv32_from-lt (b ∷ s) h p = fnv32_from-lt s (bit_xor h b * 16777619 % u32_mod) (omega arith)

fnv32a-lt : (s : Str) → fnv32a s < u32_mod
unfolding fnv32a
fnv32a-lt s = fnv32_from-lt s 2166136261 (omega arith)
