-- ===== src/CacheNode/Failure.antt =====
-- cmd/cachenode/main.go: a node after another one has died or left.
use distributed_cache_system.Prelude.{
  ℕ, ◌<◌, ◌≡◌, ◌≢◌, refl, ap, ◌∙◌, inl, inr, ◌⊎◌, Bool, true, false, none, some, List, [], ◌∷◌, Str,
  str_eq, str_eq_iff, str_eq_refl, elem, without, arith, if◌then◌else◌, ◌==◌, length,
}
use distributed_cache_system.Prelude.Assoc.{Map, lookup, lookup-delete}
use distributed_cache_system.CacheNode.{CacheNode, on_event, remove_from_ring, on_node_removed}
use distributed_cache_system.Cluster.Membership.{MembershipEvent, event_dead, event_left}
use distributed_cache_system.Cluster.Replication.{
  ReplicationManager, get_peer_conn, get_replica_set, handle_node_failure, is_primary,
}
use distributed_cache_system.Cluster.Replication.Repair.{Carries, handle_node_failure-Carries}
use distributed_cache_system.Ring.{Ring, VNode, has_node, is_empty, remove_node, size}
use distributed_cache_system.Ring.Valid.{IsValid, remove_node-IsValid}
use distributed_cache_system.Store.{Entry, is_expired}
use distributed_cache_system.Store.Scan.{remaining_ttl}
use distributed_cache_system.Store.Valid.{view}

filled :
    (q : Str) (m : Map Bool)
    → elim (lookup q m) [ none ↦ false | some b ↦ b ] ≡ true
    → (length m == 0) ≡ false
unfolding lookup
filled q [] h = ground arith
filled q (kv ∷ m) h = ground arith

pub member-filled : {F : Type 0} (q : Str) (r : Ring F) → has_node q r ≡ true → is_empty r ≡ false
unfolding has_node is_empty size
member-filled q r h = filled q r.nodes h

-- Who is in a ring that a member has left.
module _ {F : Type 0} (x : Str) (r : Ring F) (member : has_node x r ≡ true) where
  pub removed : (remove_node x r).1 ≡ true
  unfolding remove_node
  removed = rw member refl

  pub has_node-remove_node :
      (q : Str) → has_node q (remove_node x r).0 ≡ (if str_eq x q then false else has_node q r)
  unfolding has_node remove_node
  has_node-remove_node q = ground (arith, lookup-delete x q r.nodes)

pub remove_from_ring-some :
    {F : Type 0} (now : ℕ) (x : Str) (n : CacheNode F)
    → has_node x n.ring ≡ true
    → (rm : ReplicationManager)
    → handle_node_failure (remove_node x n.ring).0 now x n.store n.replication ≡ some rm
    → remove_from_ring now x n
      ≡ some (record n { ring = (remove_node x n.ring).0; replication = rm })
unfolding remove_from_ring on_node_removed
remove_from_ring-some now x n member rm run =
    rw (remove_from_ring, removed x n.ring member, run) refl

-- After a dead or left event about another member of a valid ring that this node is in, with at
-- least one replica for a key, the ring is valid and without that member, nothing is connected to
-- it, and for every live entry whose primary is this node on the new ring, a write of the value
-- with the remaining time to live is on its way to every other node of the new replica set.
pub on_event-Carries :
    {F : Type 0} (sort_slice : List VNode → List VNode) (dials : Str → Bool) (now : ℕ)
    (event : MembershipEvent) (n : CacheNode F)
    → (event.type ≡ event_dead) ⊎ (event.type ≡ event_left)
    → IsValid n.ring
    → has_node n.node_id n.ring ≡ true
    → has_node event.node_id n.ring ≡ true
    → event.node_id ≢ n.node_id
    → n.replication.self_id ≡ n.node_id
    → 0 < n.replication.replica_count
    → (n' : CacheNode F) × (on_event sort_slice dials now event n ≡ some n')
      × IsValid n'.ring
      × (has_node event.node_id n'.ring ≡ false)
      × (has_node n.node_id n'.ring ≡ true)
      × (get_peer_conn event.node_id n'.replication ≡ none)
      × ((k q : Str) (e : Entry) (nodes : List Str)
          → view n.store k ≡ some e
          → is_expired now e ≡ false
          → is_primary n'.ring k n.replication ≡ some true
          → get_replica_set n'.ring k n.replication ≡ some nodes
          → elem q (without n.node_id nodes) ≡ true
          → Carries q k e.value (remaining_ttl now e) n'.replication.pending)
unfolding on_event
on_event-Carries sort_slice dials now event n down v here member other self many =
    let x = event.node_id in
    let r = (remove_node x n.ring).0 in
    let v' = remove_node-IsValid n.ring v x in
    let gone : has_node x r ≡ false =
      ground (arith, has_node-remove_node x n.ring member x, str_eq_refl x) in
    let still : has_node n.node_id r ≡ true =
      ground (arith, has_node-remove_node x n.ring member n.node_id, str_eq_iff x n.node_id) in
    let (rm, run, _, _, cut, sent, _) =
      handle_node_failure-Carries r v' (member-filled n.node_id r still) now x n.store n.replication
        many in
    let n' = record n { ring = r; replication = rm } in
    let leaves : remove_from_ring now x n ≡ some n' = remove_from_ring-some now x n member rm run in
    (
      n',
      elim down [ inl dead ↦ rw dead leaves | inr left ↦ rw left leaves ],
      v',
      gone,
      still,
      cut,
      λ k q e nodes held live primary found there.
          sent k q e nodes held live primary found
            (ap (λ id. elem q (without id nodes)) self ∙ there),
    )
