-- ===== src/L1Cache/Refines.antt =====
-- client/l1cache.go: what every cache satisfies, and `Get` against one list of entries, the most
-- recent first.
use distributed_cache_system.Prelude.{
  ℕ, zero, suc, ◌+◌, ◌≤◌, ◌<◌, ◌≡◌, refl, ◌∙◌, inl, inr, Option, none, some, List, [], ◌∷◌, Str,
  str_eq_iff, str_eq_refl, if◌then◌else◌, ltb, arith, Bool-cases, Option-cases, length, ℤ, pos,
  negsuc,
}
use distributed_cache_system.Prelude.Assoc.{lookup, lookup-delete}
use distributed_cache_system.L1Cache.{
  L1Entry, EvictList, L1Cache, positive_or, new_l1_cache, entry_of, remove, remove_element, get,
}
use distributed_cache_system.L1Cache.Links.{
  element_of, entries, find, drop_key, Unique, Below, find_of_element, find_of_none,
  element_of-remove, element_of_held, remove-Unique, remove-Below, entry_of-remove_self,
  entries-remove, length-remove,
}

pub record IsValid (c : L1Cache) : Type 0 where
  pub roomy : 0 < c.capacity
  pub bounded : length c.evict_list ≤ c.capacity
  pub unique : Unique c.evict_list
  pub fresh : Below c.next_element c.evict_list
  -- The map leads to exactly the elements of the list.
  pub linked : (q : Str) → lookup q c.items ≡ element_of q c.evict_list

pub new_l1_cache-IsValid : (capacity ttl : ℤ) → IsValid (new_l1_cache capacity ttl)
unfolding new_l1_cache positive_or lookup
new_l1_cache-IsValid (pos zero) ttl = record {
  roomy = omega arith;
  bounded = omega arith;
  unique = tt;
  fresh = tt;
  linked = λ q. refl;
}
new_l1_cache-IsValid (pos (suc n)) ttl = record {
  roomy = omega arith;
  bounded = omega arith;
  unique = tt;
  fresh = tt;
  linked = λ q. refl;
}
new_l1_cache-IsValid (negsuc n) ttl = record {
  roomy = omega arith;
  bounded = omega arith;
  unique = tt;
  fresh = tt;
  linked = λ q. refl;
}

pub Below-absent : (n : ℕ) (l : EvictList) → Below n l → entry_of n l ≡ none
unfolding entry_of
Below-absent n [] b = refl
Below-absent n ((x, e) ∷ l) b = ground (arith, Below-absent n l b.1)

pub Below-suc : (n : ℕ) (l : EvictList) → Below n l → Below (n + 1) l
Below-suc n [] b = tt
Below-suc n ((x, e) ∷ l) b = (omega arith, Below-suc n l b.1)

entry-Below : (n x : ℕ) (l : EvictList) (e : L1Entry) → Below n l → entry_of x l ≡ some e → x < n
unfolding entry_of
entry-Below n x [] e b h = absurd (ground arith)
entry-Below n x ((y, f) ∷ l) e b h = ground (arith, entry-Below n x l e b.1)

-- What a reader gets of an entry, and the list after the read.
abbrev pub read : ℕ → Option L1Entry → Option Str
read now none = none
read now (some e) = if ltb e.expires_at now then none else some e.value

abbrev pub after_get : ℕ → Str → List L1Entry → List L1Entry
after_get now k l = elim (find k l) [
  | none ↦ l
  | some e ↦ if ltb e.expires_at now then drop_key k l else e ∷ drop_key k l
]

module _ (c : L1Cache) (v : IsValid c) where
  module _ (x : ℕ) (e : L1Entry) (held : entry_of x c.evict_list ≡ some e) where
    pub remove_element-IsValid : IsValid (remove_element x e c)
    unfolding remove_element
    remove_element-IsValid = record {
      roomy = v.roomy;
      bounded = omega (arith, length-remove x c.evict_list e held, v.bounded);
      unique = remove-Unique x c.evict_list v.unique;
      fresh = remove-Below x c.next_element c.evict_list v.fresh;
      linked = λ q. ground (
        arith,
        lookup-delete e.key q c.items,
        v.linked q,
        element_of-remove x q c.evict_list e v.unique held,
      );
    }

    -- An element moved to the front, with an entry under the same key.
    pub move_to_front-IsValid :
        (e' : L1Entry)
        → e'.key ≡ e.key
        → IsValid (record c { evict_list = (x, e') ∷ remove x c.evict_list })
    move_to_front-IsValid e' same = record {
      roomy = v.roomy;
      bounded = omega (arith, length-remove x c.evict_list e held, v.bounded);
      unique = (
        entry_of-remove_self x c.evict_list v.unique,
        ground (arith, element_of-remove x e'.key c.evict_list e v.unique held, str_eq_refl e.key),
        remove-Unique x c.evict_list v.unique,
      );
      fresh = (
        entry-Below c.next_element x c.evict_list e v.fresh held,
        remove-Below x c.next_element c.evict_list v.fresh,
      );
      linked = λ q. ground (
        arith,
        v.linked q,
        element_of-remove x q c.evict_list e v.unique held,
        str_eq_iff e.key q,
        element_of_held x c.evict_list e v.unique held,
      );
    }

  -- Get on a valid client cache does not panic, returns the value of the entry of the key unless it
  -- has expired, keeps the cache valid, and moves the entry to the front or drops it.
  pub get-Refines :
      (now : ℕ) (k : Str)
      → (c' : L1Cache) × (get now k c ≡ some (c', read now (find k (entries c.evict_list))))
        × IsValid c'
        × (entries c'.evict_list ≡ after_get now k (entries c.evict_list))
  unfolding get remove_element
  get-Refines now k = elim (Option-cases (element_of k c.evict_list)) [
    | inl absent ↦
        let nothing = find_of_none k c.evict_list absent in
        let missing : lookup k c.items ≡ none = v.linked k ∙ absent in
        (c, ground arith, v, ground arith)
    | inr (x, there) ↦
        let (e, held, found, key) = find_of_element k c.evict_list x v.unique there in
        let linked : lookup k c.items ≡ some x = v.linked k ∙ there in
        let shorter = entries-remove x c.evict_list e v.unique held in
        elim (Bool-cases (ltb e.expires_at now)) [
          | inl gone ↦
              (remove_element x e c, ground arith, remove_element-IsValid x e held, ground arith)
          | inr live ↦ (
            record c { evict_list = (x, e) ∷ remove x c.evict_list },
            ground arith,
            move_to_front-IsValid x e held e refl,
            ground arith,
          )
        ]
  ]
