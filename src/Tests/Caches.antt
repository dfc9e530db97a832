-- ===== src/Tests/Caches.antt =====
-- A client cache of two entries that is full.
use distributed_cache_system.Prelude.{
  ◌≡◌, refl, some, [], ◌∷◌, Str, codes, str_eq, arith, pos, take,
}
use distributed_cache_system.Prelude.Assoc.{lookup}
use distributed_cache_system.L1Cache.{L1Cache, get, set, entry_of}
use distributed_cache_system.L1Cache.Links.{entries, find, drop_key, element_of}
use distributed_cache_system.L1Cache.Refines.{IsValid, read, after_get, get-Refines}
use distributed_cache_system.L1Cache.Writes.{written, set-Refines}

abbrev a : Str
a = codes "a"

abbrev b : Str
b = codes "b"

abbrev full : L1Cache
full = record {
  capacity = 2;
  evict_list =
      (1, record { key = b; value = codes "2"; expires_at = 90 })
      ∷ (0, record { key = a; value = codes "1"; expires_at = 40 })
      ∷ [];
  items = (b, 1) ∷ (a, 0) ∷ [];
  default_ttl = 100;
  next_element = 2;
}

linked_by : (q : Str) → lookup q full.items ≡ element_of q full.evict_list
unfolding lookup
linked_by q = refl

full-IsValid : IsValid full
unfolding entry_of str_eq
full-IsValid = record {
  roomy = omega arith;
  bounded = omega arith;
  unique = (refl, refl, (refl, refl, tt));
  fresh = (omega arith, (omega arith, tt));
  linked = linked_by;
}

get-Refines_example :
    (c' : L1Cache) × (get 50 a full ≡ some (c', read 50 (find a (entries full.evict_list))))
    × IsValid c'
    × (entries c'.evict_list ≡ after_get 50 a (entries full.evict_list))
get-Refines_example = get-Refines full full-IsValid 50 a

set-Refines_example :
    (c' : L1Cache) × (set 50 (codes "c") (codes "3") (pos 0) full ≡ some c')
    × IsValid c'
    × (entries c'.evict_list
        ≡ take 2 (
            written full full-IsValid (codes "c") 50 (codes "3") (pos 0)
            ∷ drop_key (codes "c") (entries full.evict_list)))
set-Refines_example = set-Refines full full-IsValid (codes "c") 50 (codes "3") (pos 0)
