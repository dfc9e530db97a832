-- ===== src/Mitigator.antt =====
-- internal/hotkey/mitigator.go: the mitigation of hot keys by copies under shard names.
pub mod Copies
use distributed_cache_system.Prelude.{
  ℕ, zero, suc, ◌+◌, ◌*◌, ◌%◌, Bool, true, false, not, ◌||◌, Option, none, some, List, [], ◌∷◌,
  ◌++◌, Str, codes, decimal, if◌then◌else◌, ltb, ℤ, pos, negsuc, u32_mod, u64_mod,
}
use distributed_cache_system.Prelude.Assoc.{Map, lookup, insert, has}
use distributed_cache_system.Hash.{fnv32a}
use distributed_cache_system.Detector.{Detector, record_access}
use distributed_cache_system.Store
use distributed_cache_system.Store.{Store}

pub data MitigationStrategy : Type 0 where
  none_applied key_split read_replica : MitigationStrategy

-- `String()`.
unfoldable pub strategy_name : MitigationStrategy → Str
strategy_name none_applied = codes "NONE"
strategy_name key_split = codes "KEY_SPLIT"
strategy_name read_replica = codes "READ_REPLICA"

-- `strategy == StrategyKeySplit`.
abbrev pub is_key_split : MitigationStrategy → Bool
is_key_split key_split = true
is_key_split none_applied = false
is_key_split read_replica = false

pub record Mitigator : Type 0 where
  pub store : Store
  pub detector : Detector
  pub shard_count : ℕ
  pub mitigated_keys : Map MitigationStrategy
  pub mitigation_count : ℕ

-- A shard count below 2 is replaced by 4.
unfoldable pub shards_or_default : ℤ → ℕ
shards_or_default (pos n) = if ltb n 2 then 4 else n
shards_or_default (negsuc n) = 4

unfoldable pub new_mitigator : Store → Detector → ℤ → Mitigator
new_mitigator s d shard_count = record {
  store = s;
  detector = d;
  shard_count = shards_or_default shard_count;
  mitigated_keys = [];
  mitigation_count = 0;
}

-- `fmt.Sprintf("%s:shard_%d", key, i)`.
unfoldable pub shard_key_name : Str → ℕ → Str
shard_key_name key i = key ++ (codes ":shard_" ++ decimal i)

infixl 5 ◌>>=◌
abbrev ◌>>=◌ : {A B : Type 0} → Option A → (A → Option B) → Option B
none >>= f = none
some a >>= f = f a

-- The loop of sets under the shard names `i`, `i+1`, …, with `n` left. The two calls of the clock in
-- round `i` are `clock (2 * i)` and `clock (2 * i + 1)`.
unfoldable pub set_shards : (ℕ → ℕ) → ℕ → ℕ → Str → Str → ℤ → Store → Option Store
set_shards clock zero i key value ttl s = some s
set_shards clock (suc n) i key value ttl s =
    Store.set (clock (2 * i)) (clock (2 * i + 1)) (shard_key_name key i) value ttl s
    >>= set_shards clock n (i + 1) key value ttl

-- The store when its `Get` is not interrupted.
unfoldable pub apply_splitting : (ℕ → ℕ) → ℕ → ℕ → Str → ℕ → Store → Option Store
unfolding set_shards
apply_splitting clock now later key shard_count s = do
  (s', read) ← Store.get (λ x. x) now later key s
  elim read [ none ↦ some s' | some value ↦ set_shards clock shard_count 0 key value (pos 0) s' ]

unfoldable pub check_and_mitigate : (ℕ → ℕ) → ℕ → ℕ → Str → Mitigator → Option (Mitigator × Bool)
check_and_mitigate clock now later key m = do
  (d, hot) ← record_access key m.detector
  elim hot [
    | false ↦ some (record m { detector = d }, false)
    | true ↦ elim (has key m.mitigated_keys) [
      | true ↦ some (record m { detector = d }, true)
      | false ↦ do
        s ← apply_splitting clock now later key m.shard_count m.store
        some (
          record m {
            store = s;
            detector = d;
            mitigated_keys = insert key key_split m.mitigated_keys;
            mitigation_count = (m.mitigation_count + 1) % u64_mod;
          },
          true,
        )
    ]
  ]

-- `isMitigated && strategy == StrategyKeySplit`.
unfoldable pub is_split : Str → Mitigator → Bool
is_split key m = elim (lookup key m.mitigated_keys) [
  | none ↦ false
  | some strategy ↦ is_key_split strategy
]

-- `hashString`, which is FNV-1a on 32 bits.
unfoldable pub hash_string : Str → ℕ
hash_string s = fnv32a s

unfoldable pub get_sharded_key : Str → Str → Mitigator → Str
get_sharded_key key client_id m =
    if is_split key m
    then shard_key_name key (hash_string client_id % (m.shard_count % u32_mod))
    else key

unfoldable pub write_to_shards : (ℕ → ℕ) → ℕ → ℕ → Str → Str → ℤ → Mitigator → Option Mitigator
write_to_shards clock now later key value ttl m = do
  s ← Store.set now later key value ttl m.store
  elim (is_split key m) [
    | false ↦ some (record m { store = s })
    | true ↦ do
      s' ← set_shards clock m.shard_count 0 key value ttl s
      some (record m { store = s' })
  ]

unfoldable pub is_mitigated : Str → Mitigator → Bool
is_mitigated key m = has key m.mitigated_keys

-- A copy of the map.
unfoldable pub get_mitigated_keys : Mitigator → Map MitigationStrategy
get_mitigated_keys m = m.mitigated_keys

unfoldable pub mitigation_total : Mitigator → ℕ
mitigation_total m = m.mitigation_count
