-- ===== src/Store/Scan.antt =====
-- internal/store/store.go: `Keys`, `Len`, `ForEach` and `ShardStats`, which walk every shard.
-- A Go map is walked in some order, here that of its association list.
pub mod Listed
pub mod Visited
use distributed_cache_system.Prelude.{
  ℕ, ◌+◌, ◌-◌, ◌^◌, Bool, true, false, ◌||◌, List, [], ◌∷◌, ◌++◌, map, Str, if◌then◌else◌, ltb,
  ◌==◌, length,
}
use distributed_cache_system.Prelude.Assoc.{Map}
use distributed_cache_system.Store.{Entry, Shard, Store, is_expired}

-- `v.ExpiresAt.IsZero() || now.Before(v.ExpiresAt)`.
unfoldable pub is_listed : ℕ → Entry → Bool
is_listed now e = e.expires_at == 0 || ltb now e.expires_at

unfoldable pub keys_of : ℕ → Map Entry → List Str
keys_of now [] = []
keys_of now ((k, e) ∷ m) = if is_listed now e then k ∷ keys_of now m else keys_of now m

unfoldable pub keys_in : ℕ → List Shard → List Str
keys_in now [] = []
keys_in now (sh ∷ shs) = keys_of now sh.items ++ keys_in now shs

unfoldable pub keys : ℕ → Store → List Str
keys now s = keys_in now s.shards

unfoldable pub count_of : ℕ → ℕ → Map Entry → ℕ
count_of now count [] = count
count_of now count ((k, e) ∷ m) = count_of now (if is_listed now e then count + 1 else count) m

unfoldable pub count_in : ℕ → ℕ → List Shard → ℕ
count_in now count [] = count
count_in now count (sh ∷ shs) = count_in now (count_of now count sh.items) shs

unfoldable pub len : ℕ → Store → ℕ
len now s = count_in now 0 s.shards

-- The largest `time.Duration`, at which `Time.Sub` saturates.
abbrev pub max_duration : ℕ
max_duration = 2 ^ 63 - 1

-- `v.ExpiresAt.Sub(now)` for an entry that has not expired, 0 for one without expiry.
unfoldable pub remaining_ttl : ℕ → Entry → ℕ
remaining_ttl now e =
    if e.expires_at == 0
    then 0
    else if ltb max_duration (e.expires_at - now)
    then max_duration
    else e.expires_at - now

-- The callback of `ForEach` works on a state of type `A` and says whether to go on.
module _ {A : Type 0} (now : ℕ) (fn : Str → Str → ℕ → A → A × Bool) where
  unfoldable pub for_each_of : Map Entry → A → A × Bool
  for_each_of [] a = (a, true)
  for_each_of ((k, e) ∷ m) a = elim (is_expired now e) [
    | true ↦ for_each_of m a
    | false ↦
        let (a', go_on) = fn k e.value (remaining_ttl now e) a in
        elim go_on [ true ↦ for_each_of m a' | false ↦ (a', false) ]
  ]

  unfoldable pub for_each_in : List Shard → A → A
  for_each_in [] a = a
  for_each_in (sh ∷ shs) a =
      let (a', go_on) = for_each_of sh.items a in
      elim go_on [ true ↦ for_each_in shs a' | false ↦ a' ]

  unfoldable pub for_each : Store → A → A
  for_each s a = for_each_in s.shards a

unfoldable pub shard_stats : Store → List ℕ
shard_stats s = map (λ (sh : Shard). length sh.items) s.shards
