-- ===== src/Cluster/Replication/Primary.antt =====
-- internal/cluster/replication.go: the primary of a key and its replica set.
use distributed_cache_system.Prelude.{
  ℕ, zero, suc, ◌<◌, ◌≡◌, refl, ap, ◌∙◌, Bool, true, false, Option, none, some, List, [], ◌∷◌, Str,
  str_eq, str_eq_iff, elem, without, arith, length, take, if◌then◌else◌,
}
use distributed_cache_system.Cluster.Replication.{
  ReplicationManager, is_primary, is_replica, get_primary, get_replica_set,
}
use distributed_cache_system.Ring.{Ring, get_nodes, remove_node, has_node, is_empty, size}
use distributed_cache_system.Ring.Failover.{
  get_nodes-take, remove_node-get_nodes, length-owners, take_exact,
}
use distributed_cache_system.Ring.Owners.{owners, Nodup, owners-Nodup}
use distributed_cache_system.Ring.Valid.{IsValid}

abbrev pub is_head : Str → List Str → Bool
is_head q [] = false
is_head q (k ∷ ks) = str_eq k q

abbrev pub head : List Str → Option Str
head [] = none
head (k ∷ ks) = some k

is_head-elem :
    (q : Str) (n : ℕ) (ks : List Str) → 0 < n → is_head q ks ≡ true → elem q (take n ks) ≡ true
is_head-elem q zero ks pos h = absurd (omega arith)
is_head-elem q (suc n) [] pos h = ground arith
is_head-elem q (suc n) (k ∷ ks) pos h = ground arith

is_head-head : (q : Str) (ks : List Str) → is_head q ks ≡ true → head ks ≡ some q
is_head-head q [] h = ground arith
is_head-head q (k ∷ ks) h = ap (λ (x : Str). some x) ((str_eq_iff k q).0 h)

is_head-long : (q : Str) (ks : List Str) → is_head q ks ≡ true → 0 < length ks
is_head-long q [] h = ground arith
is_head-long q (k ∷ ks) h = omega arith

primary_of :
    (q : Str) (ks : List Str) → elim (take 1 ks) [ [] ↦ false | n ∷ _ ↦ str_eq n q ] ≡ is_head q ks
primary_of q [] = refl
primary_of q (k ∷ ks) = refl

first_of :
    (ks : List Str)
    → ◌≡◌ {A = Option Str} (elim (take 1 ks) [ [] ↦ none | n ∷ _ ↦ some n ]) (head ks)
first_of [] = refl
first_of (k ∷ ks) = refl

head-is_head : (p q : Str) (ks : List Str) → head ks ≡ some p → is_head q ks ≡ str_eq p q
head-is_head p q [] h = ground arith
head-is_head p q (k ∷ ks) h = ground arith

-- A list whose first nodes are known.
take-cons :
    (n : ℕ) (ks : List Str) (p q : Str) (rest : List Str)
    → take n ks ≡ p ∷ q ∷ rest
    → (more : List Str) × (ks ≡ p ∷ q ∷ more)
take-cons zero ks p q rest h = ground arith
take-cons (suc n) [] p q rest h = ground arith
take-cons (suc zero) (k ∷ ks) p q rest h = ground arith
take-cons (suc (suc n)) (k ∷ []) p q rest h = ground arith
take-cons (suc (suc n)) (k ∷ j ∷ ks) p q rest h = (ks, ground arith)

head-without :
    (x p q : Str) (more : List Str)
    → Nodup (p ∷ q ∷ more)
    → head (without x (p ∷ q ∷ more)) ≡ some (if str_eq p x then q else p)
head-without x p q more d = ground (arith, str_eq_iff p x, str_eq_iff q x, str_eq_iff q p)

module _ {F : Type 0} (r : Ring F) (v : IsValid r) (key : Str) where
  pub is_primary-owners :
      (rm : ReplicationManager)
      → is_primary r key rm ≡ some (is_head rm.self_id (owners key r.vnodes))
  unfolding is_primary
  is_primary-owners rm =
      rw (get_nodes-take r v key 1)
        (ap (λ (b : Bool). some b) (primary_of rm.self_id (owners key r.vnodes)))

  pub get_primary-owners :
      (rm : ReplicationManager) → get_primary r key rm ≡ some (head (owners key r.vnodes))
  unfolding get_primary
  get_primary-owners rm =
      rw (get_nodes-take r v key 1)
        (ap (λ (o : Option Str). some o) (first_of (owners key r.vnodes)))

  -- A ring with a primary has members.
  pub is_primary-filled :
      (rm : ReplicationManager) → is_primary r key rm ≡ some true → is_empty r ≡ false
  unfolding is_empty size
  is_primary-filled rm h =
      let here : is_head rm.self_id (owners key r.vnodes) ≡ true = cc (h, is_primary-owners rm) in
      let some_owner = is_head-long rm.self_id (owners key r.vnodes) here in
      ground (arith, some_owner, length-owners r v key)

  -- On one ring, no key has two primaries, `GetPrimary` names the one that there is, and the
  -- primary is among the replicas.
  pub is_primary_unique :
      (a b : ReplicationManager)
      → 0 < a.replica_count
      → is_primary r key a ≡ some true
      → (get_primary r key b ≡ some (some a.self_id))
        × (is_replica r key a ≡ some true)
        × (is_primary r key b ≡ some (str_eq a.self_id b.self_id))
  unfolding is_replica
  is_primary_unique a b many h =
      let here : is_head a.self_id (owners key r.vnodes) ≡ true = cc (h, is_primary-owners a) in
      let first = is_head-head a.self_id (owners key r.vnodes) here in
      (
        get_primary-owners b ∙ ap (λ (o : Option Str). some o) first,
        (rw (get_nodes-take r v key a.replica_count) (
            ap (λ (b : Bool). some b)
              (is_head-elem a.self_id a.replica_count (owners key r.vnodes) many here))),
        is_primary-owners b
            ∙ ap (λ (b : Bool). some b)
                (head-is_head a.self_id b.self_id (owners key r.vnodes) first),
      )

-- When a member leaves a valid ring, a key whose replica set has two nodes or more keeps its
-- primary, unless the primary is the one that left: then the second node of the replica set becomes
-- the primary.
pub remove_node-get_primary :
    {F : Type 0} (r : Ring F) (rm : ReplicationManager) (key x p q : Str) (rest : List Str)
    → IsValid r
    → has_node x r ≡ true
    → get_replica_set r key rm ≡ some (p ∷ q ∷ rest)
    → get_primary (remove_node x r).0 key rm ≡ some (some (if str_eq p x then q else p))
unfolding get_primary get_replica_set size
remove_node-get_primary r rm key x p q rest v here set =
    let l = owners key r.vnodes in
    let walk : get_nodes key (size r) r ≡ some l =
      get_nodes-take r v key (size r)
      ∙ ap (λ (ks : List Str). some ks) (take_exact l (size r) (length-owners r v key)) in
    let (more, split) =
      take-cons rm.replica_count l p q rest (cc (set, get_nodes-take r v key rm.replica_count)) in
    let after : get_nodes key 1 (remove_node x r).0 ≡ some (take 1 (without x l)) =
      remove_node-get_nodes r v x key 1 l here walk in
    let nodup : Nodup (p ∷ q ∷ more) = rw split at (owners-Nodup key r.vnodes) in
    let chosen : head (without x l) ≡ some (if str_eq p x then q else p) =
      ap (λ ks. head (without x ks)) split ∙ head-without x p q more nodup in
    rw after (ap (λ (o : Option Str). some o) (first_of (without x l) ∙ chosen))
