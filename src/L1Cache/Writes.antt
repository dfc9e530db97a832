-- ===== src/L1Cache/Writes.antt =====
-- client/l1cache.go: `Set` and `Delete`, against one list of entries.
use distributed_cache_system.Prelude.{
  ℕ, zero, suc, ◌+◌, ◌≤◌, ◌≡◌, refl, sym, ap, ◌∙◌, inl, inr, none, some, List, [], ◌∷◌, Str, ltb,
  arith, Bool-cases, Option-cases, length, take, ℤ,
}
use distributed_cache_system.Prelude.Assoc.{insert, lookup, lookup-insert}
use distributed_cache_system.L1Cache.{
  L1Entry, EvictList, L1Cache, positive_or, entry_of, remove, back, remove_element, evict_oldest,
  set, delete,
}
use distributed_cache_system.L1Cache.Links.{
  element_of, entries, drop_key, Unique, find_of_element, entries-remove, length-remove,
}
use distributed_cache_system.L1Cache.Refines.{
  IsValid, Below-absent, Below-suc, remove_element-IsValid, move_to_front-IsValid,
}

drop_absent : (q : Str) (l : EvictList) → element_of q l ≡ none → drop_key q (entries l) ≡ entries l
drop_absent q [] h = refl
drop_absent q ((x, e) ∷ l) h = ground (arith, drop_absent q l)

take_all : (n : ℕ) (l : EvictList) → length l ≤ n → take n (entries l) ≡ entries l
take_all zero [] h = refl
take_all (suc n) [] h = refl
take_all zero (x ∷ l) h = absurd (omega arith)
take_all (suc n) ((x, e) ∷ l) h = ap (λ (r : List L1Entry). e ∷ r) (take_all n l (omega arith))

-- The last element holds its entry, and its removal takes the last entry off.
back_lem :
    (x : ℕ) (e : L1Entry) (l : EvictList)
    → Unique ((x, e) ∷ l)
    → (y : ℕ) × (f : L1Entry) × (back ((x, e) ∷ l) ≡ some (y, f))
      × (entry_of y ((x, e) ∷ l) ≡ some f)
      × (entries (remove y ((x, e) ∷ l)) ≡ take (length l) (entries ((x, e) ∷ l)))
unfolding back entry_of remove
back_lem x e [] u = (x, e, refl, ground arith, ground arith)
back_lem x e ((z, g) ∷ l) u =
    let (y, f, last, held, shorter) = back_lem z g l u.2 in
    (y, f, last, ground (arith, u.0, held), ground (arith, u.0, held, shorter))

module _ (c : L1Cache) (v : IsValid c) (k : Str) where
  -- `Delete` drops the entry of the key.
  pub delete-Refines :
      (c' : L1Cache) × (delete k c ≡ some c')
      × IsValid c'
      × (entries c'.evict_list ≡ drop_key k (entries c.evict_list))
  unfolding delete remove_element
  delete-Refines = elim (Option-cases (element_of k c.evict_list)) [
    | inl absent ↦
        let missing : lookup k c.items ≡ none = v.linked k ∙ absent in
        (c, ground arith, v, sym (drop_absent k c.evict_list absent))
    | inr (x, there) ↦
        let (e, held, found, key) = find_of_element k c.evict_list x v.unique there in
        let linked : lookup k c.items ≡ some x = v.linked k ∙ there in
        let shorter = entries-remove x c.evict_list e v.unique held in
        (remove_element x e c, ground arith, remove_element-IsValid c v x e held, ground arith)
  ]

  module _ (now : ℕ) (value : Str) (ttl : ℤ) where
    -- The entry that `Set` writes; a TTL that is not positive means the default.
    abbrev pub entry_for : Str → L1Entry
    entry_for q = record {
      key = q;
      value = value;
      expires_at = now + positive_or ttl c.default_ttl;
    }

    abbrev pub written : L1Entry
    written = entry_for k

    abbrev grown : L1Cache
    grown = record c {
      evict_list = (c.next_element, written) ∷ c.evict_list;
      items = insert k c.next_element c.items;
      next_element = c.next_element + 1;
    }

    -- With room for one more, the new element keeps the cache valid.
    grown-IsValid :
        element_of k c.evict_list ≡ none → IsValid (record grown { capacity = c.capacity + 1 })
    grown-IsValid absent = record {
      roomy = omega arith;
      bounded = omega (arith, v.bounded);
      unique = (Below-absent c.next_element c.evict_list v.fresh, absent, v.unique);
      fresh = (omega arith, Below-suc c.next_element c.evict_list v.fresh);
      linked = λ q. ground (arith, v.linked q, lookup-insert k q c.next_element c.items);
    }

    -- In a full cache the oldest element leaves for the new one.
    evict_lem :
        element_of k c.evict_list ≡ none
        → length c.evict_list ≡ c.capacity
        → IsValid (evict_oldest grown)
          × (entries (evict_oldest grown).evict_list
              ≡ take c.capacity (written ∷ drop_key k (entries c.evict_list)))
    unfolding evict_oldest remove_element
    evict_lem absent full =
        let larger = grown-IsValid absent in
        let (y, f, last, held, shorter) =
          back_lem c.next_element written c.evict_list larger.unique in
        let smaller =
          remove_element-IsValid (record grown { capacity = c.capacity + 1 }) larger y f held in
        let evicted : evict_oldest grown ≡ remove_element y f grown =
          rw (evict_oldest, last) refl in
        (rw evicted (
          record {
            roomy = v.roomy;
            bounded =
                omega
                  (arith, length-remove y ((c.next_element, written) ∷ c.evict_list) f held, full);
            unique = smaller.unique;
            fresh = smaller.fresh;
            linked = smaller.linked;
          },
          rw (drop_absent k c.evict_list absent, sym full) shorter,
        ))

    -- Set on a valid client cache does not panic, keeps the cache valid, and leaves the new entry
    -- first, the other entries in order without the old one of the key, cut to the capacity.
    pub set-Refines :
        (c' : L1Cache) × (set now k value ttl c ≡ some c')
        × IsValid c'
        × (entries c'.evict_list ≡ take c.capacity (written ∷ drop_key k (entries c.evict_list)))
    unfolding set
    set-Refines = elim (Option-cases (element_of k c.evict_list)) [
      | inr (x, there) ↦
          let (e, held, found, key) = find_of_element k c.evict_list x v.unique there in
          let linked : lookup k c.items ≡ some x = v.linked k ∙ there in
          let e' : L1Entry = record e {
            value = value;
            expires_at = now + positive_or ttl c.default_ttl;
          } in
          let renamed : e' ≡ written = ap entry_for key in
          let shorter = entries-remove x c.evict_list e v.unique held in
          (
            record c { evict_list = (x, e') ∷ remove x c.evict_list },
            ground arith,
            move_to_front-IsValid c v x e held e' refl,
            (rw (sym renamed, sym key, sym shorter)
                (sym (
                  take_all c.capacity ((x, e') ∷ remove x c.evict_list)
                    (omega (arith, v.bounded, length-remove x c.evict_list e held))))),
          )
      | inl absent ↦
          let missing : lookup k c.items ≡ none = v.linked k ∙ absent in
          elim (Bool-cases (ltb c.capacity (suc (length c.evict_list)))) [
            | inl over ↦
                let full : length c.evict_list ≡ c.capacity = ground (arith, v.bounded, over) in
                let (valid, shorter) = evict_lem absent full in
                (evict_oldest grown, rw (set, missing, over) refl, valid, shorter)
            | inr under ↦
                let larger = grown-IsValid absent in
                (
                  grown,
                  rw (set, missing, under) refl,
                  record {
                    roomy = v.roomy;
                    bounded = ground (arith, under);
                    unique = larger.unique;
                    fresh = larger.fresh;
                    linked = larger.linked;
                  },
                  (rw (drop_absent k c.evict_list absent)
                      (sym (take_all c.capacity grown.evict_list (ground (arith, under))))),
                )
          ]
    ]
