-- ===== src/L1Cache.antt =====
-- client/l1cache.go: the client's LRU cache with expiry times.
-- A `*list.Element` is a number; `evict_list` holds the elements with their entries, the most
-- recent first, and `items` is the map from keys to elements. `none` is a map entry whose element is
-- not in the list.
pub mod Links
pub mod Refines
pub mod Writes
use distributed_cache_system.Prelude.{
  ℕ, zero, suc, ◌+◌, ◌*◌, Bool, true, false, Option, none, some, List, [], ◌∷◌, ◌++◌, Str,
  if◌then◌else◌, ltb, ◌==◌, ℤ, pos, negsuc, length,
}
use distributed_cache_system.Prelude.Assoc
use distributed_cache_system.Prelude.Assoc.{Map, lookup, insert}

pub record L1Entry : Type 0 where
  pub key : Str
  pub value : Str
  pub expires_at : ℕ

abbrev pub EvictList : Type 0
EvictList = List (ℕ × L1Entry)

pub record L1Cache : Type 0 where
  pub capacity : ℕ
  pub evict_list : EvictList
  pub items : Map ℕ
  pub default_ttl : ℕ
  -- The next element that the allocator gives out.
  pub next_element : ℕ

unfoldable pub positive_or : ℤ → ℕ → ℕ
positive_or (pos zero) d = d
positive_or (pos (suc n)) d = suc n
positive_or (negsuc n) d = d

unfoldable pub new_l1_cache : ℤ → ℤ → L1Cache
new_l1_cache capacity default_ttl = record {
  capacity = positive_or capacity 1000;
  evict_list = [];
  items = [];
  default_ttl = positive_or default_ttl 5000000000;
  next_element = 0;
}

-- `elem.Value`.
unfoldable pub entry_of : ℕ → EvictList → Option L1Entry
entry_of x [] = none
entry_of x ((y, e) ∷ l) = if y == x then some e else entry_of x l

-- `evictList.Remove(elem)`.
unfoldable pub remove : ℕ → EvictList → EvictList
remove x [] = []
remove x ((y, e) ∷ l) = if y == x then l else (y, e) ∷ remove x l

-- `evictList.Back()`.
unfoldable pub back : EvictList → Option (ℕ × L1Entry)
back [] = none
back (x ∷ []) = some x
back (x ∷ y ∷ l) = back (y ∷ l)

unfoldable pub remove_element : ℕ → L1Entry → L1Cache → L1Cache
remove_element x e c = record c {
  evict_list = remove x c.evict_list;
  items = Assoc.delete e.key c.items;
}

unfoldable pub evict_oldest : L1Cache → L1Cache
evict_oldest c = elim (back c.evict_list) [ none ↦ c | some (x, e) ↦ remove_element x e c ]

unfoldable pub get : ℕ → Str → L1Cache → Option (L1Cache × Option Str)
get now key c = elim (lookup key c.items) [
  | none ↦ some (c, none)
  | some x ↦ elim (entry_of x c.evict_list) [
    | none ↦ none
    | some e ↦
        if ltb e.expires_at now
        then some (remove_element x e c, none)
        else some (record c { evict_list = (x, e) ∷ remove x c.evict_list }, some e.value)
  ]
]

unfoldable pub set : ℕ → Str → Str → ℤ → L1Cache → Option L1Cache
set now key value ttl c =
    let expires_at = now + positive_or ttl c.default_ttl in
    elim (lookup key c.items) [
      | some x ↦ elim (entry_of x c.evict_list) [
        | none ↦ none
        | some e ↦ some (record c {
          evict_list =
              (x, record e { value = value; expires_at = expires_at }) ∷ remove x c.evict_list;
        })
      ]
      | none ↦
          let x = c.next_element in
          let c' = record c {
            evict_list =
                (x, record { key = key; value = value; expires_at = expires_at }) ∷ c.evict_list;
            items = insert key x c.items;
            next_element = x + 1;
          } in
          some (if ltb c.capacity (length c'.evict_list) then evict_oldest c' else c')
    ]

unfoldable pub delete : Str → L1Cache → Option L1Cache
delete key c = elim (lookup key c.items) [
  | none ↦ some c
  | some x ↦ elim (entry_of x c.evict_list) [ none ↦ none | some e ↦ some (remove_element x e c) ]
]

unfoldable pub clear : L1Cache → L1Cache
clear c = record c { evict_list = []; items = [] }

unfoldable pub len : L1Cache → ℕ
len c = length c.evict_list
