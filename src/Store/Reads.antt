-- ===== src/Store/Reads.antt =====
-- `Get` on a valid store, with other goroutines between its two critical sections, and what a `Get`
-- reads after a `Set`.
use distributed_cache_system.Prelude.{
  ℕ, ◌+◌, ◌≡◌, refl, ap, ◌∙◌, inl, inr, Bool, true, Option, none, some, Str, str_eq_refl,
  if◌then◌else◌, arith, ℤ, pos, negsuc, zero, suc, leb, Bool-cases, Option-cases,
}
use distributed_cache_system.Prelude.Assoc.{lookup}
use distributed_cache_system.Store.{
  Entry, Store, StoreStats, ◌>>=◌, is_expired, inc_hits, inc_misses, inc_expirations,
  delete_if_expired, get, expiry, set,
}
use distributed_cache_system.Store.Methods.{
  Leaves, keep-Leaves, view-found, existed, purged, expired, delete_if_expired-Leaves, set-Leaves,
}
use distributed_cache_system.Store.Valid.{IsValid, view, get_shard-some}

-- The bytes that a caller gets of an entry.
abbrev pub value_of : Option Entry → Option Str
value_of none = none
value_of (some e) = some e.value

restat-Leaves :
    {s : Store} {k : Str} {r : Option Entry} {st : StoreStats} {s' : Store} (st' : StoreStats)
    → Leaves s k r st s'
    → Leaves s k r st' (record s' { stats = st' })
unfolding view distributed_cache_system.Store.get_shard distributed_cache_system.Store.shard_index
restat-Leaves st' l = record {
  valid = record { masked = l.valid.masked; distinct = l.valid.distinct; placed = l.valid.placed };
  updates = l.updates;
  counts = refl;
}

module _ (s : Store) (k : Str) (v : IsValid s) (between : Store → Store) (now later : ℕ) where
  -- The store that `Get` leaves its mark on: what the other goroutines made of it, if the read found
  -- an expired entry, else the one it read.
  abbrev pub read_from : Store
  read_from = if expired now (view s k) then between s else s

  abbrev pub left_at : Option Entry
  left_at = if expired now (view s k) then purged later (view (between s) k) else view s k

  abbrev pub counted : StoreStats
  counted =
      if expired now (view s k)
      then inc_misses (
          if expired later (view (between s) k)
          then inc_expirations (between s).stats
          else (between s).stats)
      else if existed (view s k)
      then inc_hits s.stats
      else inc_misses s.stats

  -- Get on a valid store does not panic and returns exactly the value of a live entry, whatever
  -- valid store other goroutines leave between its two critical sections; it deletes the entry only
  -- if the first look found it expired and the second one does too, and counts the hit, the miss
  -- and the expiration.
  pub get-Leaves :
      IsValid (between s)
      → (s' : Store) × (get between now later k s ≡ some (s', value_of (purged now (view s k))))
        × Leaves read_from k left_at counted s'
  unfolding get
  get-Leaves v' =
      let (sh, found) = get_shard-some s k v in
      elim (Option-cases (lookup k sh.items)) [
        | inl absent ↦
            let seen = view-found s k v sh found ∙ absent in
            rw seen (_, rw (found, ◌>>=◌, absent), keep-Leaves s k v none (inc_misses s.stats) seen)
        | inr (e, here) ↦
            let seen = view-found s k v sh found ∙ here in
            elim (Bool-cases (is_expired now e)) [
              | inl gone ↦
                  let (s', done, l) = delete_if_expired-Leaves (between s) k v' later in
                  rw (seen, gone)
                    (_, rw (found, ◌>>=◌, here, gone, done) (rw l.counts refl), restat-Leaves _ l)
              | inr live ↦
                  rw (seen, live)
                    (
                      _,
                      rw (found, ◌>>=◌, here, live),
                      keep-Leaves s k v (some e) (inc_hits s.stats) seen,
                    )
            ]
      ]

-- A lifetime that started at `start` and is not over at `now`.
unfoldable pub not_over : ℤ → ℕ → ℕ → Bool
not_over (pos zero) start now = true
not_over (pos (suc d)) start now = leb now (start + suc d)
not_over (negsuc d) start now = true

pub purged-set :
    (ttl : ℤ) (value : Str) (t0 t1 now : ℕ)
    → value_of
        (purged now (some (record { value = value; expires_at = expiry t1 ttl; created_at = t0 })))
      ≡ (if not_over ttl t1 now then some value else none)
unfolding is_expired expiry not_over
purged-set (pos zero) value t0 t1 now = refl
purged-set (pos (suc d)) value t0 t1 now = ground arith
purged-set (negsuc d) value t0 t1 now = refl

-- On a valid store, a Get after a Set of the same key returns the stored value until its time to
-- live is over and nothing from then on; a time to live that is not positive never ends.
pub get-set :
    (s : Store) (k : Str) (value : Str) (ttl : ℤ) (t0 t1 now later : ℕ)
    → IsValid s
    → (s' : Store) × (s'' : Store) × (set t0 t1 k value ttl s ≡ some s')
      × (get (λ x. x) now later k s' ≡ some (s'', if not_over ttl t1 now then some value else none))
get-set s k value ttl t0 t1 now later v =
    let (s', stored, l) = set-Leaves s k v t0 t1 value ttl in
    let (s'', read, _) = get-Leaves s' k l.valid (λ x. x) now later l.valid in
    let entry : Entry = record { value = value; expires_at = expiry t1 ttl; created_at = t0 } in
    let here : view s' k ≡ some entry =
      l.updates k ∙ ap (λ b. if b then some entry else view s k) (str_eq_refl k) in
    (s', s'', stored, rw (here, purged-set ttl value t0 t1 now) at read)
