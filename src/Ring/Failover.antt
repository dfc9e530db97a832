-- ===== src/Ring/Failover.antt =====
-- internal/hashing/ring.go: `GetNodes` on a valid ring, before and after a node leaves.
use distributed_cache_system.Prelude.{
  ℕ, zero, suc, ◌≤◌, ◌≡◌, refl, sym, ap, ◌∙◌, inl, inr, Bool, true, false, some, List, [], ◌∷◌, Str,
  elem, without, str_eq, str_eq_iff, str_eq_refl, if◌then◌else◌, ltb, arith, Bool-cases, length,
  take, ltb→lt, min,
}
use distributed_cache_system.Prelude.Assoc.{Map, lookup, has, Distinct}
use distributed_cache_system.Ring.{Ring, has_node, get_nodes, remove_node, size}
use distributed_cache_system.Ring.Owners.{
  owners, Nodup, get_nodes-owners, elem-owners, owners-Nodup, owners-others,
}
use distributed_cache_system.Ring.Valid.{IsValid, has_node-has, remove_node-IsValid}

elem-without :
    (q x : Str) (ks : List Str) → elem q (without x ks) ≡ (if str_eq x q then false else elem q ks)
elem-without q x [] = ground arith
elem-without q x (k ∷ ks) =
    ground (arith, elem-without q x ks, str_eq_iff k x, str_eq_iff k q, str_eq_iff x q)

without-Nodup : (x : Str) (ks : List Str) → Nodup ks → Nodup (without x ks)
without-Nodup x [] d = tt
without-Nodup x (k ∷ ks) d = ground (arith, without-Nodup x ks d.1, elem-without k x ks)

without_absent : (x : Str) (ks : List Str) → elem x ks ≡ false → without x ks ≡ ks
without_absent x [] h = refl
without_absent x (k ∷ ks) h = ground (arith, without_absent x ks)

length-without :
    (x : Str) (ks : List Str)
    → Nodup ks
    → elem x ks ≡ true
    → suc (length (without x ks)) ≡ length ks
length-without x [] d h = ground arith
length-without x (k ∷ ks) d h =
    ground (arith, length-without x ks d.1, without_absent x ks, str_eq_iff k x)

-- A list without repetition that holds exactly the keys of a map is as long as the map.
length-same :
    (m : Map Bool) (ks : List Str)
    → Distinct m
    → Nodup ks
    → ((q : Str) → elem q ks ≡ has q m)
    → length ks ≡ length m
unfolding lookup
length-same [] [] d u h = refl
length-same [] (k ∷ ks) d u h = ground (arith, h k, str_eq_refl k)
length-same ((k, b) ∷ m) ks d u h =
    let rest =
      length-same m (without k ks) d.1 (without-Nodup k ks u)
        (λ q. ground (arith, elem-without q k ks, h q, str_eq_iff k q, d.0)) in
    let here = length-without k ks u (ground (arith, h k, str_eq_refl k)) in omega arith

take_min :
    (n k : ℕ) (ks : List Str) → length ks ≡ k → take (if ltb k n then k else n) ks ≡ take n ks
take_min n k ks h = elim (Bool-cases (ltb k n)) [
  | inr le ↦ rw le refl
  | inl lt ↦ rw lt (rw (← h) (take_all_le ks n (omega (arith, ltb→lt _ _ lt))))
]
  where
    take_all_le : (ks : List Str) (n : ℕ) → length ks ≤ n → take (length ks) ks ≡ take n ks
    take_all_le [] zero h = refl
    take_all_le [] (suc n) h = refl
    take_all_le (k ∷ ks) zero h = absurd (omega arith)
    take_all_le (k ∷ ks) (suc n) h = ap (◌∷◌ k) (take_all_le ks n (omega arith))

pub take_exact : (ks : List Str) (n : ℕ) → length ks ≡ n → take n ks ≡ ks
take_exact [] zero h = refl
take_exact [] (suc n) h = refl
take_exact (k ∷ ks) zero h = absurd (omega arith)
take_exact (k ∷ ks) (suc n) h = ap (◌∷◌ k) (take_exact ks n (omega arith))

elem-take : (q : Str) (n : ℕ) (ks : List Str) → elem q (take n ks) ≡ true → elem q ks ≡ true
elem-take q zero ks h = ground arith
elem-take q (suc n) [] h = h
elem-take q (suc n) (k ∷ ks) h = ground (arith, elem-take q n ks)

take-Nodup : (n : ℕ) (ks : List Str) → Nodup ks → Nodup (take n ks)
take-Nodup zero ks d = tt
take-Nodup (suc n) [] d = tt
take-Nodup (suc n) (k ∷ ks) d = (ground (arith, elem-take k n ks), take-Nodup n ks d.1)

pub length-take : (n : ℕ) (ks : List Str) → length (take n ks) ≡ min n (length ks)
length-take zero ks = omega arith
length-take (suc n) [] = omega arith
length-take (suc n) (k ∷ ks) = omega (arith, length-take n ks)

module _ {F : Type 0} (r : Ring F) (v : IsValid r) (key : Str) where
  elem-owners-has : (q : Str) → elem q (owners key r.vnodes) ≡ has q r.nodes
  elem-owners-has q = ground (arith, elem-owners q key r.vnodes, v.placed q, v.weighted)

  pub length-owners : length (owners key r.vnodes) ≡ length r.nodes
  length-owners =
      length-same r.nodes (owners key r.vnodes) v.unique (owners-Nodup key r.vnodes) elem-owners-has

  pub get_nodes-take : (n : ℕ) → get_nodes key n r ≡ some (take n (owners key r.vnodes))
  get_nodes-take n =
      get_nodes-owners key n r v.sorted
      ∙ ap some (take_min n (length r.nodes) (owners key r.vnodes) length-owners)

  -- GetNodes on a valid ring does not panic and returns as many different members as are asked for,
  -- or all of them if there are fewer.
  pub get_nodes_lem :
      (n : ℕ)
      → (result : List Str) × (get_nodes key n r ≡ some result)
        × Nodup result
        × ((q : Str) → elem q result ≡ true → has_node q r ≡ true)
        × (length result ≡ min n (size r))
  unfolding size
  get_nodes_lem n = (
    take n (owners key r.vnodes),
    get_nodes-take n,
    take-Nodup n _ (owners-Nodup key r.vnodes),
    λ q h.
        ground (arith, has_node-has r v q, elem-owners-has q, elem-take q n (owners key r.vnodes)),
    omega (arith, length-take n (owners key r.vnodes), length-owners),
  )

module _ {F : Type 0} (r : Ring F) (v : IsValid r) (x key : Str) where
  -- When a member leaves a valid ring, GetNodes answers with the full walk of before without that
  -- member: the other nodes keep their order for every key.
  pub remove_node-get_nodes :
      (n : ℕ) (all : List Str)
      → has_node x r ≡ true
      → get_nodes key (size r) r ≡ some all
      → get_nodes key n (remove_node x r).0 ≡ some (take n (without x all))
  unfolding size remove_node
  remove_node-get_nodes n all here walk =
      let every : some (take (length r.nodes) (owners key r.vnodes)) ≡ some all =
        sym (get_nodes-take r v key (length r.nodes)) ∙ walk in
      let full : take (length r.nodes) (owners key r.vnodes) ≡ owners key r.vnodes =
        take_exact (owners key r.vnodes) (length r.nodes) (length-owners r v key) in
      let whole : owners key r.vnodes ≡ all = cc in
      get_nodes-take (remove_node x r).0 (remove_node-IsValid r v x) key n
      ∙ rw here (ap (λ l. some (take n l)) (owners-others x key r.vnodes ∙ ap (without x) whole))
