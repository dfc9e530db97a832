-- ===== src/Store.antt =====
-- internal/store/store.go: the sharded key-value store with TTL.
-- A time is a number of nanoseconds on the clock, 0 for Go's zero `time.Time`; a method takes the
-- values of its `time.Now()` calls as arguments. `none` is a run-time panic (an index out of range).
pub mod Scan
pub mod Valid
pub mod Methods
pub mod Reads
pub mod Create
use Prim.Native.Nat.{bit_and}
use distributed_cache_system.Prelude.{
  ℕ, zero, suc, ◌+◌, ◌-◌, ◌*◌, ◌%◌, ◌^◌, Bool, true, false, not, ◌&&◌, ◌||◌, Option, none, some,
  List, [], ◌∷◌, ◌++◌, map, Str, if◌then◌else◌, ltb, leb, ◌==◌, ℤ, pos, negsuc, pos_part, u32_mod,
  u64_mod, length, get_elem?, set as set_at, replicate,
}
use distributed_cache_system.Prelude.Assoc
use distributed_cache_system.Prelude.Assoc.{Map, lookup, insert}
use distributed_cache_system.Hash.{fnv32a}

pub record Entry : Type 0 where
  pub value : Str
  pub expires_at : ℕ
  pub created_at : ℕ

-- `now.After(e.ExpiresAt)`, unless the entry has no expiry.
unfoldable pub is_expired : ℕ → Entry → Bool
is_expired now e = if e.expires_at == 0 then false else ltb e.expires_at now

pub record Shard : Type 0 where
  pub items : Map Entry

pub record StoreStats : Type 0 where
  pub hits : ℕ
  pub misses : ℕ
  pub sets : ℕ
  pub deletes : ℕ
  pub expirations : ℕ

pub record Store : Type 0 where
  pub shards : List Shard
  pub shard_mask : ℕ
  pub stats : StoreStats

-- `c++` on a `uint64`.
abbrev pub inc64 : ℕ → ℕ
inc64 c = (c + 1) % u64_mod

unfoldable pub inc_hits : StoreStats → StoreStats
inc_hits s = record s { hits = inc64 s.hits }

unfoldable pub inc_misses : StoreStats → StoreStats
inc_misses s = record s { misses = inc64 s.misses }

unfoldable pub inc_sets : StoreStats → StoreStats
inc_sets s = record s { sets = inc64 s.sets }

unfoldable pub inc_deletes : StoreStats → StoreStats
inc_deletes s = record s { deletes = inc64 s.deletes }

unfoldable pub inc_expirations : StoreStats → StoreStats
inc_expirations s = record s { expirations = inc64 s.expirations }

abbrev pub default_shard_count : ℕ
default_shard_count = 256

abbrev pub no_stats : StoreStats
no_stats = record { hits = 0; misses = 0; sets = 0; deletes = 0; expirations = 0 }

-- `for n < shardCount { n <<= 1 }`, where `n` and `count` do not reach 2^63; `none` is a loop that
-- has not ended when the fuel is out.
unfoldable pub round_up : ℕ → ℕ → ℕ → Option ℕ
round_up zero n count = if ltb n count then none else some n
round_up (suc fuel) n count =
    let rest = round_up fuel (n * 2) count in if ltb n count then rest else some n

unfoldable pub shard_count_of : ℤ → ℕ
shard_count_of (pos zero) = default_shard_count
shard_count_of (pos (suc n)) = suc n
shard_count_of (negsuc n) = default_shard_count

-- `longest` is the greatest length that `make([]*shard, n)` allows on the platform.
unfoldable pub new_with_shards : ℕ → ℤ → Option Store
unfolding shard_count_of
new_with_shards longest shard_count = elim (round_up 62 1 (shard_count_of shard_count)) [
  | none ↦ none
  | some n ↦
      if ltb longest n
      then none
      else some (record {
        shards = replicate n (record { items = [] });
        shard_mask = (n - 1) % u32_mod;
        stats = no_stats;
      })
]

unfoldable pub new : ℕ → Option Store
unfolding new_with_shards
new longest = new_with_shards longest (pos default_shard_count)

unfoldable pub shard_index : Store → Str → ℕ
shard_index s key = bit_and (fnv32a key) s.shard_mask

unfoldable pub get_shard : Store → Str → Option Shard
get_shard s key = get_elem? s.shards (shard_index s key)

-- The shard of a key with other items; its pointer keeps its place in `s.shards`.
unfoldable pub put_items : Store → Str → Map Entry → Store
put_items s key m = record s { shards = set_at s.shards (shard_index s key) (record { items = m }) }

infixl 5 ◌>>=◌
abbrev ◌>>=◌ : {A B : Type 0} → Option A → (A → Option B) → Option B
none >>= f = none
some a >>= f = f a

-- The second critical section of `Get`, under the write lock.
unfoldable pub delete_if_expired : ℕ → Str → Store → Option Store
delete_if_expired now key s = do
  sh ← get_shard s key
  elim (lookup key sh.items) [
    | none ↦ some s
    | some e ↦
        if is_expired now e
        then some (record (put_items s key (Assoc.delete key sh.items)) {
          stats = inc_expirations s.stats;
        })
        else some s
  ]

-- `between` is what other goroutines do to the store between the two critical sections.
unfoldable pub get : (Store → Store) → ℕ → ℕ → Str → Store → Option (Store × Option Str)
get between now later key s = do
  sh ← get_shard s key
  elim (lookup key sh.items) [
    | none ↦ some (record s { stats = inc_misses s.stats }, none)
    | some e ↦
        if is_expired now e
        then (do
          s' ← delete_if_expired later key (between s)
          some (record s' { stats = inc_misses s'.stats }, none))
        else some (record s { stats = inc_hits s.stats }, some e.value)
  ]

-- `if ttl > 0 { ExpiresAt = now.Add(ttl) }`, else the zero time.
unfoldable pub expiry : ℕ → ℤ → ℕ
expiry now (pos zero) = 0
expiry now (pos (suc d)) = now + suc d
expiry now (negsuc d) = 0

unfoldable pub set : ℕ → ℕ → Str → Str → ℤ → Store → Option Store
set now later key value ttl s = do
  sh ← get_shard s key
  let entry : Entry = record { value = value; expires_at = expiry later ttl; created_at = now }
  some (record (put_items s key (insert key entry sh.items)) { stats = inc_sets s.stats })

unfoldable pub delete : Str → Store → Option (Store × Bool)
delete key s = do
  sh ← get_shard s key
  elim (lookup key sh.items) [
    | none ↦ some (s, false)
    | some e ↦
        some (
          record (put_items s key (Assoc.delete key sh.items)) { stats = inc_deletes s.stats },
          true,
        )
  ]

unfoldable pub expire : ℕ → ℕ → Str → ℤ → Store → Option (Store × Bool)
expire now later key ttl s = do
  sh ← get_shard s key
  elim (lookup key sh.items) [
    | none ↦ some (s, false)
    | some e ↦
        if is_expired now e
        then some (s, false)
        else some (
          put_items s key (insert key (record e { expires_at = expiry later ttl }) sh.items),
          true,
        )
  ]
