-- ===== src/Sweeper.antt =====
-- internal/store/ttl.go: the background sweeper that expires stale entries by sampling.
-- The goroutine's ticker is left out: `tick` is what it does each time. A draw `rand.Intn(n)` is
-- `intn round i n`, and `none` is a run-time panic.
pub mod Sampling
pub mod Rounds
use distributed_cache_system.Prelude.{
  ℕ, zero, suc, ◌+◌, ◌-◌, ◌*◌, ◌%◌, ◌≤◌, ◌<◌, Bool, true, false, Option, none, some, List, [], ◌∷◌,
  map, Str, if◌then◌else◌, ltb, ◌==◌, ℤ, pos, negsuc, length, get_elem?, set,
}
use distributed_cache_system.Prelude.Assoc
use distributed_cache_system.Prelude.Assoc.{Map, lookup}
use distributed_cache_system.Store.{Entry, Shard, Store, StoreStats, is_expired, inc_expirations}

abbrev pub default_sweep_interval : ℕ
default_sweep_interval = 100000000

abbrev pub samples_per_sweep : ℕ
samples_per_sweep = 20

-- `NewSweeper`: the interval used.
unfoldable pub sweep_interval : ℤ → ℕ
sweep_interval (pos zero) = default_sweep_interval
sweep_interval (pos (suc n)) = suc n
sweep_interval (negsuc n) = default_sweep_interval

-- What one sampling pass works on.
pub record Pass : Type 0 where
  pub keys : List Str
  pub items : Map Entry
  pub expired_count : ℕ
  pub stats : StoreStats

-- The keys of a shard, which the pass collects first.
abbrev pub keys_of : Map Entry → List Str
keys_of [] = []
keys_of ((k, e) ∷ m) = k ∷ keys_of m

-- `keys[i], keys[j] = keys[j], keys[i]`.
unfoldable pub swap : List Str → ℕ → ℕ → Option (List Str)
swap keys i j = elim (get_elem? keys i) [
  | none ↦ none
  | some a ↦ elim (get_elem? keys j) [ none ↦ none | some b ↦ some (set (set keys i b) j a) ]
]

-- The sample at position `i`, once the keys are swapped. A key that is not in the map gives a nil
-- entry, whose field is read.
unfoldable pub sample_at : ℕ → ℕ → Pass → Option Pass
sample_at now i p = elim (get_elem? p.keys i) [
  | none ↦ none
  | some key ↦ elim (lookup key p.items) [
    | none ↦ none
    | some e ↦
        if is_expired now e
        then some (record p {
          items = Assoc.delete key p.items;
          expired_count = p.expired_count + 1;
          stats = inc_expirations p.stats;
        })
        else some p
  ]
]

-- The loop from sample `i` on, with `n` samples left.
unfoldable pub sample_loop : (ℕ → ℕ → ℕ) → ℕ → ℕ → ℕ → Pass → Option Pass
sample_loop intn now zero i p = some p
sample_loop intn now (suc n) i p = elim (swap p.keys i (intn i (length p.keys - i) + i)) [
  | none ↦ none
  | some keys ↦ elim (sample_at now i (record p { keys = keys })) [
    | none ↦ none
    | some p' ↦ sample_loop intn now n (i + 1) p'
  ]
]

-- The fraction that `sampleAndExpire` returns, as its two counts.
pub record Rate : Type 0 where
  pub expired : ℕ
  pub sampled : ℕ

-- `expired < expiredThreshold` for the fraction and 0.25; no samples give the fraction 0.
abbrev pub below_threshold : Rate → Bool
below_threshold r = if r.sampled == 0 then true else ltb (r.expired * 4) r.sampled

unfoldable pub sample_and_expire :
    (ℕ → ℕ → ℕ) → ℕ → Map Entry → StoreStats → Option (Map Entry × StoreStats × Rate)
sample_and_expire intn now items stats =
    let n = length items in
    let samples = if ltb n samples_per_sweep then n else samples_per_sweep in
    if n == 0
    then some (items, stats, record { expired = 0; sampled = 0 })
    else elim (sample_loop intn now samples 0
        (record { keys = keys_of items; items = items; expired_count = 0; stats = stats })) [
          | none ↦ none
          | some p ↦
              some (p.items, p.stats, record { expired = p.expired_count; sampled = samples })
        ]

-- `sweepShard` on the items of its shard and the counters: rounds until the rate is low or the
-- sweeper is stopped. `clock` and `stopped` are read once in each round. The lock of the shard is
-- free between two rounds: `others round` is what other goroutines do to the shard and the counters
-- then. `none` is a panic, or no fuel.
unfoldable pub sweep_rounds :
    (ℕ → ℕ → ℕ → ℕ)
    → (ℕ → ℕ)
    → (ℕ → Bool)
    → (ℕ → Map Entry × StoreStats → Map Entry × StoreStats)
    → ℕ
    → ℕ
    → Map Entry × StoreStats
    → Option (Map Entry × StoreStats)
sweep_rounds intn clock stopped others zero round state = none
sweep_rounds intn clock stopped others (suc fuel) round state =
    elim (sample_and_expire (intn round) (clock round) state.0 state.1) [
      | none ↦ none
      | some (items, stats, rate) ↦ elim (below_threshold rate) [
        | true ↦ some (items, stats)
        | false ↦ elim (stopped round) [
          | true ↦ some (items, stats)
          | false ↦
              sweep_rounds intn clock stopped others fuel (round + 1) (others round (items, stats))
        ]
      ]
    ]

-- More rounds than there are entries, with the `added` ones that other goroutines add meanwhile, are
-- never needed. What others do to other shards meanwhile is left out.
unfoldable pub sweep_shard :
    (ℕ → ℕ → ℕ → ℕ)
    → (ℕ → ℕ)
    → (ℕ → Bool)
    → (ℕ → Map Entry × StoreStats → Map Entry × StoreStats)
    → ℕ
    → ℕ
    → Store
    → Option Store
sweep_shard intn clock stopped others added index s = elim (get_elem? s.shards index) [
  | none ↦ none
  | some sh ↦
      elim (sweep_rounds intn clock stopped others (length sh.items + added + 1) 0
        (sh.items, s.stats)) [
          | none ↦ none
          | some (items, stats) ↦
              some
                (record s { shards = set s.shards index (record { items = items }); stats = stats })
        ]
]

-- `run` at a tick: the shard swept, and the next one.
unfoldable pub tick :
    (ℕ → ℕ → ℕ → ℕ)
    → (ℕ → ℕ)
    → (ℕ → Bool)
    → (ℕ → Map Entry × StoreStats → Map Entry × StoreStats)
    → ℕ
    → ℕ
    → Store
    → Option (Store × ℕ)
tick intn clock stopped others added index s =
    elim (sweep_shard intn clock stopped others added index s) [
      | none ↦ none
      | some s' ↦ some (s', (index + 1) % length s'.shards)
    ]
