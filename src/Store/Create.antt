-- ===== src/Store/Create.antt =====
-- `NewWithShards`: the loop that rounds the shard count up, and the store that it builds.
use native.Mathlib.Nat.{pow-suc, add-zero, add-suc, suc-add}
use distributed_cache_system.Prelude.{
  ℕ, zero, suc, ◌+◌, ◌-◌, ◌*◌, ◌%◌, ◌^◌, ◌≤◌, ◌<◌, ◌≡◌, refl, ap, ◌⊎◌, inl, inr, none, some, Str,
  ltb, ltb→lt, ltb→le, arith, ℤ, pos, negsuc, [], Bool-cases, Option-cases, length,
  length-replicate, get_elem?, replicate, get_elem?-replicate, get_elem?-lt, u32_mod,
}
use distributed_cache_system.Prelude.Assoc.{lookup}
use distributed_cache_system.Store.{
  Shard, shard_index, Store, get_shard, no_stats, round_up, shard_count_of, new_with_shards,
}
use distributed_cache_system.Store.Valid.{IsValid, view}

-- The loop ends on the first power of two that is large enough.
round_up_total :
    (fuel j count : ℕ)
    → count ≤ 2 ^ (j + fuel)
    → (2 ^ j < 2 * count)
    → (k : ℕ) × (round_up fuel (2 ^ j) count ≡ some (2 ^ k)) × (count ≤ 2 ^ k) × (2 ^ k < 2 * count)
unfolding round_up
round_up_total zero j count enough tight = elim (Bool-cases (ltb (2 ^ j) count)) [
  | inl short ↦ absurd (omega (arith, ltb→lt _ _ short, ap (λ (x : ℕ). 2 ^ x) (add-zero j)))
  | inr long ↦ (j, rw long, ltb→le _ _ long, tight)
]
round_up_total (suc fuel) j count enough tight = elim (Bool-cases (ltb (2 ^ j) count)) [
  | inl short ↦
      rw (short, ← pow-suc 2 j)
        (round_up_total fuel (suc j) count (rw (suc-add, ← add-suc) enough)
          (omega (arith, ltb→lt _ _ short, pow-suc 2 j)))
  | inr long ↦ (j, rw long, ltb→le _ _ long, tight)
]

shard_count_of-pos : (count : ℤ) → 0 < shard_count_of count
unfolding shard_count_of
shard_count_of-pos (pos zero) = omega arith
shard_count_of-pos (pos (suc n)) = omega arith
shard_count_of-pos (negsuc n) = omega arith

module _ (n : ℕ) where
  abbrev blank : Shard
  blank = record { items = [] }

  abbrev empty_store : Store
  empty_store = record {
    shards = replicate n blank;
    shard_mask = (n - 1) % u32_mod;
    stats = no_stats;
  }

  blank_at : (i : ℕ) (sh : Shard) → get_elem? (replicate n blank) i ≡ some sh → sh ≡ blank
  blank_at i sh h =
      let inside : i < n =
        omega (arith, get_elem?-lt (replicate n blank) i h, length-replicate n blank) in
      cc (h, get_elem?-replicate n i blank inside)

  empty_store-IsValid : 0 < n → IsValid empty_store
  unfolding lookup
  empty_store-IsValid h = record {
    masked = omega (arith, length-replicate n blank);
    distinct = λ i sh e. rw (blank_at i sh e) tt;
    placed = λ i sh k e found held. ground (arith, blank_at i sh found);
  }

  view-empty_store : (q : Str) → view empty_store q ≡ none
  unfolding view get_shard lookup
  view-empty_store q =
      elim (Option-cases (get_elem? (replicate n blank) (shard_index empty_store q))) [
        | inl missing ↦ rw (missing, view)
        | inr (sh, found) ↦ rw (found, view, blank_at _ sh found)
      ]

least_power :
    (count : ℤ)
    → shard_count_of count ≤ 2 ^ 62
    → (k : ℕ) × (round_up 62 1 (shard_count_of count) ≡ some (2 ^ k))
      × (shard_count_of count ≤ 2 ^ k)
      × (2 ^ k < 2 * shard_count_of count)
least_power count h =
    round_up_total 62 0 (shard_count_of count) h (omega (arith, shard_count_of-pos count))

-- For a requested count whose effective value is at most 2^62, the constructor panics exactly if
-- the least power of two that is not below the request is longer than a slice may be; otherwise it
-- gives a valid empty store with that number of shards.
pub new_with_shards-IsValid :
    (longest : ℕ) (count : ℤ)
    → shard_count_of count ≤ 2 ^ 62
    → (k : ℕ) × (shard_count_of count ≤ 2 ^ k)
      × (2 ^ k < 2 * shard_count_of count)
      × (((longest < 2 ^ k) × (new_with_shards longest count ≡ none))
          ⊎ ((2 ^ k ≤ longest)
              × ((s : Store) × (new_with_shards longest count ≡ some s)
                  × IsValid s
                  × ((q : Str) → view s q ≡ none)
                  × (length s.shards ≡ 2 ^ k))))
unfolding new_with_shards
new_with_shards-IsValid longest count h =
    let (k, run, enough, tight) = least_power count h in
    let valid = empty_store-IsValid (2 ^ k) (omega (arith, shard_count_of-pos count)) in
    (
      k,
      enough,
      tight,
      elim (Bool-cases (ltb longest (2 ^ k))) [
        | inl long ↦ inl (ltb→lt _ _ long, rw (run, new_with_shards, long) refl)
        | inr fits ↦ inr (
          ltb→le _ _ fits,
          (
            empty_store (2 ^ k),
            rw (run, new_with_shards, fits) refl,
            valid,
            view-empty_store (2 ^ k),
            length-replicate (2 ^ k) _,
          ),
        )
      ],
    )
