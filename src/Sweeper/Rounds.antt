-- ===== src/Sweeper/Rounds.antt =====
-- internal/store/ttl.go: the rounds of a sweep on one shard.
use distributed_cache_system.Prelude.{
  ℕ, zero, suc, ◌+◌, ◌≤◌, ◌<◌, ◌≡◌, refl, ◌⊎◌, inl, inr, Bool, true, Bool-cases, none, some, Str,
  if◌then◌else◌, ltb, ◌==◌, arith, length,
}
use distributed_cache_system.Prelude.Assoc.{Map, lookup, Distinct}
use distributed_cache_system.Store.{Entry, StoreStats}
use distributed_cache_system.Sweeper.{
  Pass, Rate, below_threshold, samples_per_sweep, keys_of, sample_and_expire, sweep_rounds,
}
use distributed_cache_system.Sweeper.Sampling.{
  expired, sample_loop_lem, length-keys_of, keys_of-Ready,
}

-- `rand.Intn(n)` draws below `n`.
abbrev pub InRange : (ℕ → ℕ → ℕ) → Type 0
InRange intn = (i n : ℕ) → 0 < n → intn i n < n

-- One pass: no panic; the entries that are gone had expired; the rate counts them.
sample_and_expire_lem :
    (intn : ℕ → ℕ → ℕ) (now : ℕ) (items : Map Entry) (stats : StoreStats)
    → InRange intn
    → Distinct items
    → (items' : Map Entry) × (stats' : StoreStats) × (rate : Rate) × (sample_and_expire intn now
          items stats
        ≡ some (items', stats', rate))
      × ((q : Str)
          → (lookup q items' ≡ lookup q items)
            ⊎ ((lookup q items' ≡ none) × (expired now (lookup q items) ≡ true)))
      × (rate.expired + length items' ≡ length items)
      × Distinct items'
unfolding sample_and_expire
sample_and_expire_lem intn now items stats draws d = elim (Bool-cases (length items == 0)) [
  | inl empty ↦ (
    items,
    stats,
    record { expired = 0; sampled = 0 },
    rw empty refl,
    λ q. inl refl,
    omega arith,
    d,
  )
  | inr some_entry ↦
      let samples =
        if ltb (length items) samples_per_sweep then length items else samples_per_sweep in
      let start : Pass = record {
        keys = keys_of items;
        items = items;
        expired_count = 0;
        stats = stats;
      } in
      let (p, done, purged) =
        sample_loop_lem intn now samples 0 start draws (ground (arith, length-keys_of items))
          (keys_of-Ready items 0 stats d) in
      (
        p.items,
        p.stats,
        record { expired = p.expired_count; sampled = samples },
        rw (some_entry, done) refl,
        purged.entries,
        omega (arith, purged.counted),
        purged.distinct,
      )
]

-- A pass: every entry is unchanged, or gone and expired.
abbrev pub Purged : ℕ → Map Entry → Map Entry → Type 0
Purged now items items' =
    (q : Str)
    → (lookup q items' ≡ lookup q items)
      ⊎ ((lookup q items' ≡ none) × (expired now (lookup q items) ≡ true))

-- A shard and the counters.
abbrev pub State : Type 0
State = Map Entry × StoreStats

-- The rounds of a sweep from one on: passes, and between two of them what others do.
pub data Sweeps (clock : ℕ → ℕ) (others : ℕ → State → State) : ℕ → State → State → Type 0 where
  last : {round : ℕ} {a b : State} → Purged (clock round) a.0 b.0 → Sweeps clock others round a b
  next :
      {round : ℕ} {a b c : State}
      → Purged (clock round) a.0 b.0
      → Sweeps clock others (round + 1) (others round b) c
      → Sweeps clock others round a c

-- Other goroutines keep one entry for a key, and from round `i` on they add at most `left i` entries.
pub record Adding (left : ℕ → ℕ) (others : ℕ → State → State) : Type 0 where
  pub distinct : (i : ℕ) (s : State) → Distinct s.0 → Distinct (others i s).0
  pub bounded : (i : ℕ) (s : State) → length (others i s).0 + left (i + 1) ≤ length s.0 + left i

module _ (intn : ℕ → ℕ → ℕ → ℕ) (clock : ℕ → ℕ) (stopped : ℕ → Bool)
    (draws : (round : ℕ) → InRange (intn round)) (left : ℕ → ℕ) (others : ℕ → State → State)
    (adding : Adding left others) where
  -- If the random draws are in range and other goroutines add a bounded number of entries between
  -- the rounds, the rounds of a sweep end without a panic, with fuel for one round more than there
  -- are entries and entries to be added; every pass takes out only entries that have expired by
  -- then, and leaves the others unchanged.
  pub sweep_rounds_lem :
      (fuel round : ℕ) (state : State)
      → length state.0 + left round < fuel
      → Distinct state.0
      → (state' : State) × (sweep_rounds intn clock stopped others fuel round state ≡ some state')
        × Sweeps clock others round state state'
        × Distinct state'.0
  unfolding sweep_rounds
  sweep_rounds_lem zero round state h d = absurd (omega arith)
  sweep_rounds_lem (suc fuel) round state h d =
      let (items, stats, rate, done, purged, counted, d') =
        sample_and_expire_lem (intn round) (clock round) state.0 state.1 (draws round) d in
      elim (Bool-cases (below_threshold rate)) [
        | inl low ↦ ((items, stats), rw (sweep_rounds, done, low) refl, last purged, d')
        | inr high ↦ elim (Bool-cases (stopped round)) [
          | inl stop ↦ ((items, stats), rw (sweep_rounds, done, high, stop) refl, last purged, d')
          | inr go_on ↦
              let shorter : length items < length state.0 = ground (arith, counted, high) in
              let (state', rest, sweeps, d'') =
                sweep_rounds_lem fuel (round + 1) (others round (items, stats))
                  (omega (arith, shorter, adding.bounded round (items, stats), h))
                  (adding.distinct round (items, stats) d') in
              (state', rw (sweep_rounds, done, high, go_on) rest, next purged sweeps, d'')
        ]
      ]
