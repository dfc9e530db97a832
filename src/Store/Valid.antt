-- ===== src/Store/Valid.antt =====
-- internal/store/store.go: the invariant of a store, and its abstract view, a map from keys to
-- entries.
use distributed_cache_system.Hash.Mask.{bit_and-le}
use distributed_cache_system.Prelude.{
  ℕ, ◌<◌, ◌≡◌, inl, inr, Option, none, some, Str, str_eq, str_eq_iff, if◌then◌else◌, ◌==◌, arith,
  length, get_elem?, get_elem?-set, get_elem?-some, length-set, Bool-cases,
}
use distributed_cache_system.Prelude.Assoc
use distributed_cache_system.Prelude.Assoc.{Map, lookup, Distinct, lookup-delete}
use distributed_cache_system.Store.{Entry, Shard, Store, shard_index, get_shard, put_items}

pub record IsValid (s : Store) : Type 0 where
  pub masked : s.shard_mask < length s.shards
  pub distinct : (i : ℕ) (sh : Shard) → get_elem? s.shards i ≡ some sh → Distinct sh.items
  -- A key is only ever stored in the shard that its hash picks.
  pub placed :
      (i : ℕ) (sh : Shard) (k : Str) (e : Entry)
      → get_elem? s.shards i ≡ some sh
      → lookup k sh.items ≡ some e
      → shard_index s k ≡ i

-- The entry stored under a key, expired or not.
unfoldable pub view : Store → Str → Option Entry
view s key = elim (get_shard s key) [ none ↦ none | some sh ↦ lookup key sh.items ]

shard_index-lt : (s : Store) (k : Str) → IsValid s → shard_index s k < length s.shards
unfolding shard_index
shard_index-lt s k v = omega (arith, bit_and-le _ s.shard_mask, v.masked)

-- No access panics.
pub get_shard-some : (s : Store) (k : Str) → IsValid s → (sh : Shard) × (get_shard s k ≡ some sh)
unfolding get_shard
get_shard-some s k v = get_elem?-some s.shards (shard_index s k) (shard_index-lt s k v)

get_shard-put_items :
    (s : Store) (k q : Str) (m : Map Entry)
    → IsValid s
    → get_shard (put_items s k m) q
      ≡ (if shard_index s k == shard_index s q then some (record { items = m }) else get_shard s q)
unfolding get_shard put_items shard_index
get_shard-put_items s k q m v =
    get_elem?-set s.shards _ _ _ (unfold shard_index in shard_index-lt s k v)

-- New items for a shard that write `r` under one key and keep the others.
pub record Writes (sh : Shard) (k : Str) (r : Option Entry) (m : Map Entry) : Type 0 where
  pub unique : Distinct m
  pub reads : (q : Str) → lookup q m ≡ (if str_eq k q then r else lookup q sh.items)

module _ (s : Store) (k : Str) (sh : Shard) (v : IsValid s) (found : get_shard s k ≡ some sh) where
  pub insert-Writes : (e : Entry) → Writes sh k (some e) (Assoc.insert k e sh.items)
  unfolding get_shard
  insert-Writes e = record {
    unique = Assoc.insert-Distinct k e sh.items (v.distinct (shard_index s k) sh found);
    reads = λ q. Assoc.lookup-insert k q e sh.items;
  }

  pub delete-Writes : Writes sh k none (Assoc.delete k sh.items)
  unfolding get_shard
  delete-Writes = record {
    unique = Assoc.delete-Distinct k sh.items (v.distinct (shard_index s k) sh found);
    reads = λ q. lookup-delete k q sh.items;
  }

  module _ (r : Option Entry) (m : Map Entry) (w : Writes sh k r m) where
    put_distinct :
        (i : ℕ) (sh' : Shard) → get_elem? (put_items s k m).shards i ≡ some sh' → Distinct sh'.items
    unfolding put_items
    put_distinct i sh' h =
        let stored =
          get_elem?-set s.shards (shard_index s k) i (record { items = m })
            (shard_index-lt s k v) in
        elim (Bool-cases (shard_index s k == i)) [
          | inl here ↦ let e : sh' ≡ record { items = m } = ground (arith, stored) in rw e w.unique
          | inr there ↦ v.distinct i sh' (ground (arith, stored))
        ]

    put_placed :
        (i : ℕ) (sh' : Shard) (q : Str) (e : Entry)
        → get_elem? (put_items s k m).shards i ≡ some sh'
        → lookup q sh'.items ≡ some e
        → shard_index (put_items s k m) q ≡ i
    unfolding put_items shard_index get_shard
    put_placed i sh' q e h at_q = ground (
      arith,
      get_elem?-set s.shards (shard_index s k) i (record { items = m }) (shard_index-lt s k v),
      str_eq_iff k q,
      w.reads q,
      v.placed i sh' q e,
      v.placed i sh q e,
    )

    pub put_items-IsValid : IsValid (put_items s k m)
    unfolding put_items
    put_items-IsValid = record {
      masked = rw (length-set s.shards) v.masked;
      distinct = put_distinct;
      placed = put_placed;
    }

    pub view-put_items : (q : Str) → view (put_items s k m) q ≡ (if str_eq k q then r else view s q)
    unfolding view get_shard
    view-put_items q = ground (arith, get_shard-put_items s k q m v, w.reads q, str_eq_iff k q)
