-- ===== src/Store/Methods.antt =====
-- internal/store/store.go: `Set`, `Delete`, `Expire` and the second look of `Get`, against the view of
-- the store as one map.
use distributed_cache_system.Prelude.{
  ℕ, ◌≡◌, refl, ◌∙◌, inl, inr, Bool, true, false, Option, none, some, Str, str_eq, str_eq_iff,
  if◌then◌else◌, arith, ℤ, Bool-cases, Option-cases,
}
use distributed_cache_system.Prelude.Assoc.{Map, lookup}
use distributed_cache_system.Store.{
  Entry, Shard, Store, StoreStats, ◌>>=◌, shard_index, is_expired, inc_sets, inc_deletes,
  inc_expirations, get_shard, put_items, delete_if_expired, expiry, set, delete, expire,
}
use distributed_cache_system.Store.Valid.{
  IsValid, view, get_shard-some, Writes, insert-Writes, delete-Writes, put_items-IsValid,
  view-put_items,
}

-- The abstract store: one key written, or unchanged.
abbrev pub Updates : Store → Str → Option Entry → Store → Type 0
Updates s k r s' = (q : Str) → view s' q ≡ (if str_eq k q then r else view s q)

-- What a successful method leaves behind: a valid store, one key of the view written, the counters.
pub record Leaves (s : Store) (k : Str) (r : Option Entry) (st : StoreStats) (s' : Store)
    : Type 0 where
  pub valid : IsValid s'
  pub updates : Updates s k r s'
  pub counts : s'.stats ≡ st

abbrev pub existed : Option Entry → Bool
existed none = false
existed (some _) = true

-- An entry under the test for expiry: gone if it has expired.
abbrev pub purged : ℕ → Option Entry → Option Entry
purged now none = none
purged now (some e) = if is_expired now e then none else some e

abbrev pub expired : ℕ → Option Entry → Bool
expired now none = false
expired now (some e) = is_expired now e

-- A live entry with a new expiry time.
abbrev pub renewed : ℕ → ℕ → Option Entry → Option Entry
renewed now at none = none
renewed now at (some e) = if is_expired now e then some e else some (record e { expires_at = at })

-- Rewriting a key with what it holds changes nothing.
module _ (s : Store) (k : Str) (v : IsValid s) where
  pub keep-Leaves :
      (r : Option Entry) (st : StoreStats)
      → view s k ≡ r
      → Leaves s k r st (record s { stats = st })
  unfolding view get_shard shard_index
  keep-Leaves r st h = record {
    valid = record { masked = v.masked; distinct = v.distinct; placed = v.placed };
    updates = λ q. ground (arith, str_eq_iff k q);
    counts = refl;
  }

  module _ (sh : Shard) (found : get_shard s k ≡ some sh) where
    put-Leaves :
        (r : Option Entry) (m : Map Entry) (st : StoreStats)
        → Writes sh k r m
        → Leaves s k r st (record (put_items s k m) { stats = st })
    unfolding view get_shard shard_index
    put-Leaves r m st w = record {
      valid =
          let p = put_items-IsValid s k sh v found r m w in
          record { masked = p.masked; distinct = p.distinct; placed = p.placed };
      updates = view-put_items s k sh v found r m w;
      counts = refl;
    }

    pub view-found : view s k ≡ lookup k sh.items
    unfolding view
    view-found = ground arith

  -- `Set` stores the value with its expiry time under the key, and counts one more set.
  pub set-Leaves :
      (now later : ℕ) (value : Str) (ttl : ℤ)
      → (s' : Store) × (set now later k value ttl s ≡ some s')
        × Leaves s k
            (some (record { value = value; expires_at = expiry later ttl; created_at = now }))
            (inc_sets s.stats)
            s'
  unfolding set
  set-Leaves now later value ttl =
      let (sh, found) = get_shard-some s k v in
      let w =
        insert-Writes s k sh v found
          (record { value = value; expires_at = expiry later ttl; created_at = now }) in
      (_, rw found refl, put-Leaves sh found _ _ _ w)

  -- `Delete` removes the key, says whether it was there, and counts only a key that was.
  pub delete-Leaves :
      (s' : Store) × (delete k s ≡ some (s', existed (view s k)))
      × Leaves s k none (if existed (view s k) then inc_deletes s.stats else s.stats) s'
  unfolding delete
  delete-Leaves =
      let (sh, found) = get_shard-some s k v in
      elim (Option-cases (lookup k sh.items)) [
        | inl absent ↦
            let seen = view-found sh found ∙ absent in
            rw seen (s, rw (found, ◌>>=◌, absent), keep-Leaves none s.stats seen)
        | inr (e, here) ↦
            let seen = view-found sh found ∙ here in
            let w = delete-Writes s k sh v found in
            rw seen (_, rw (found, ◌>>=◌, here), put-Leaves sh found none _ _ w)
      ]

  -- `Expire` finds exactly the keys that hold a live entry, and changes only its expiry time.
  pub expire-Leaves :
      (now later : ℕ) (ttl : ℤ)
      → (s' : Store) × (expire now later k ttl s ≡ some (s', existed (purged now (view s k))))
        × Leaves s k (renewed now (expiry later ttl) (view s k)) s.stats s'
  unfolding expire put_items
  expire-Leaves now later ttl =
      let (sh, found) = get_shard-some s k v in
      elim (Option-cases (lookup k sh.items)) [
        | inl absent ↦
            let seen = view-found sh found ∙ absent in
            rw seen (s, rw (found, ◌>>=◌, absent), keep-Leaves none s.stats seen)
        | inr (e, here) ↦
            let seen = view-found sh found ∙ here in
            let w = insert-Writes s k sh v found (record e { expires_at = expiry later ttl }) in
            elim (Bool-cases (is_expired now e)) [
              | inl gone ↦
                  rw (seen, gone)
                    (s, rw (found, ◌>>=◌, here, gone), keep-Leaves (some e) s.stats seen)
              | inr live ↦
                  rw (seen, live)
                    (_, rw (found, ◌>>=◌, here, live), put-Leaves sh found _ _ s.stats w)
            ]
      ]

  -- The double check of `Get`: what is deleted has expired.
  pub delete_if_expired-Leaves :
      (now : ℕ)
      → (s' : Store) × (delete_if_expired now k s ≡ some s')
        × Leaves s k
            (purged now (view s k))
            (if expired now (view s k) then inc_expirations s.stats else s.stats)
            s'
  unfolding delete_if_expired
  delete_if_expired-Leaves now =
      let (sh, found) = get_shard-some s k v in
      elim (Option-cases (lookup k sh.items)) [
        | inl absent ↦
            let seen = view-found sh found ∙ absent in
            rw seen (s, rw (found, ◌>>=◌, absent), keep-Leaves none s.stats seen)
        | inr (e, here) ↦
            let seen = view-found sh found ∙ here in
            elim (Bool-cases (is_expired now e)) [
              | inl gone ↦
                  rw (seen, gone)
                    (
                      _,
                      rw (found, ◌>>=◌, here, gone),
                      put-Leaves sh found none _ _ (delete-Writes s k sh v found),
                    )
              | inr live ↦
                  rw (seen, live)
                    (s, rw (found, ◌>>=◌, here, live), keep-Leaves (some e) s.stats seen)
            ]
      ]
