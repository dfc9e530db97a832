-- ===== src/Mitigator/Copies.antt =====
-- internal/hotkey/mitigator.go: writes to the copies of a hot key, and the names that clients read.
use distributed_cache_system.Prelude.{
  ℕ, zero, suc, ◌+◌, ◌*◌, ◌%◌, ◌≤◌, ◌<◌, ◌≡◌, refl, inl, inr, Bool-cases, some, Str, str_eq,
  str_eq_refl, ◌==◌, arith, ℤ, u32_mod,
}
use distributed_cache_system.Store.{Entry, Store, set, expiry}
use distributed_cache_system.Store.Valid.{IsValid, view}
use distributed_cache_system.Store.Methods.{set-Leaves}
use distributed_cache_system.Mitigator.{
  Mitigator, shard_key_name, set_shards, is_split, hash_string, get_sharded_key, write_to_shards,
}

-- The store has an entry with a value under a key.
abbrev pub Holds : Str → Store → Str → Type 0
Holds value s q = (e : Entry) × (view s q ≡ some e) × (e.value ≡ value)

module _ (key value : Str) (ttl : ℤ) where
  -- A write of the value keeps every key that holds it.
  pub set-Holds :
      (now later : ℕ) (k : Str) (s : Store)
      → IsValid s
      → (s' : Store) × (set now later k value ttl s ≡ some s')
        × IsValid s'
        × Holds value s' k
        × ((q : Str) → Holds value s q → Holds value s' q)
  set-Holds now later k s v =
      let (s', stored, l) = set-Leaves s k v now later value ttl in
      let entry : Entry = record {
        value = value;
        expires_at = expiry later ttl;
        created_at = now;
      } in
      (
        s',
        stored,
        l.valid,
        (entry, ground (arith, l.updates k, str_eq_refl k), refl),
        λ q h. elim (Bool-cases (str_eq k q)) [
          | inl same ↦ (entry, ground (arith, l.updates q), refl)
          | inr differ ↦ (h.0, ground (arith, l.updates q, h.1), h.2)
        ],
      )

  pub set_shards-Holds :
      (clock : ℕ → ℕ) (n i : ℕ) (s : Store)
      → IsValid s
      → (s' : Store) × (set_shards clock n i key value ttl s ≡ some s')
        × IsValid s'
        × ((q : Str) → Holds value s q → Holds value s' q)
        × ((j : ℕ) → i ≤ j → j < i + n → Holds value s' (shard_key_name key j))
  unfolding set_shards
  set_shards-Holds clock zero i s v = (s, refl, v, λ q h. h, λ j low high. absurd (omega arith))
  set_shards-Holds clock (suc n) i s v =
      let (s₁, stored, v₁, here, kept) =
        set-Holds (clock (2 * i)) (clock (2 * i + 1)) (shard_key_name key i) s v in
      let (s', done, v', kept', there) = set_shards-Holds clock n (i + 1) s₁ v₁ in
      (
        s',
        rw stored done,
        v',
        λ q h. kept' q (kept q h),
        λ j low high. elim (Bool-cases (j == i)) [
          | inl first ↦ let e : j ≡ i = ground arith in rw e (kept' (shard_key_name key i) here)
          | inr later ↦ there j (ground arith) (omega arith)
        ],
      )

  -- Only the store changes.
  pub copied :
      (clock : ℕ → ℕ) (now later : ℕ) (m : Mitigator)
      → IsValid m.store
      → 0 < m.shard_count
      → m.shard_count < u32_mod
      → (s : Store) × (write_to_shards clock now later key value ttl m
          ≡ some (record m { store = s }))
        × IsValid s
        × Holds value s key
        × ((client : Str) → Holds value s (get_sharded_key key client (record m { store = s })))
  unfolding write_to_shards get_sharded_key is_split
  copied clock now later m v some_shard small =
      let (s, stored, v₁, here, _) = set-Holds now later key m.store v in
      elim (Bool-cases (is_split key m)) [
        | inr whole ↦ (s, rw (stored, whole) refl, v₁, here, λ client. rw whole here)
        | inl split ↦
            let (s', done, v', kept, there) = set_shards-Holds clock m.shard_count 0 s v₁ in
            (
              s',
              rw (stored, split, done) refl,
              v',
              kept key here,
              λ client. rw split (
                  there (hash_string client % (m.shard_count % u32_mod)) (omega arith)
                    (ground arith)),
            )
      ]

  -- WriteToShards on a valid store with at least one shard and fewer than 2^32 does not panic, and
  -- afterwards the key and the name that GetShardedKey picks for any client have an entry with the
  -- written value.
  pub write_to_shards-Holds :
      (clock : ℕ → ℕ) (now later : ℕ) (m : Mitigator)
      → IsValid m.store
      → 0 < m.shard_count
      → m.shard_count < u32_mod
      → (m' : Mitigator) × (write_to_shards clock now later key value ttl m ≡ some m')
        × IsValid m'.store
        × Holds value m'.store key
        × ((client : Str) → Holds value m'.store (get_sharded_key key client m'))
  write_to_shards-Holds clock now later m v some_shard small =
      let (s, done, v', here, there) = copied clock now later m v some_shard small in
      (record m { store = s }, done, v', here, there)
