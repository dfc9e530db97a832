-- ===== src/CacheNode.antt =====
-- cmd/cachenode/main.go: what a node does when its membership reports an event.
-- The callbacks of the ring run inside AddNode and RemoveNode, after their locks are released.
pub mod Failure
pub mod Peers
pub mod Steps
pub mod Running
pub mod Configured
use distributed_cache_system.Prelude.{
  ℕ, Bool, true, false, not, ◌&&◌, Option, none, some, List, [], ◌∷◌, Str, str_eq, if◌then◌else◌,
}
use distributed_cache_system.Cluster.Membership.{
  MembershipEvent, event_join, event_alive, event_suspect, event_dead, event_left,
}
use distributed_cache_system.Cluster.Node
use distributed_cache_system.Cluster.Node.{NodeRegistry, NodeInfo, new_node_registry}
use distributed_cache_system.Cluster.Replication.{
  ReplicationManager, ◌>>=◌, connect_to_peer, handle_node_failure, new_replication_manager,
}
use distributed_cache_system.Config.{Config}
use distributed_cache_system.Ring.{Float64, Ring, VNode, new_ring, add_node, remove_node}
use distributed_cache_system.Store.{Store}

pub record CacheNode (F : Type 0) : Type 0 where
  pub node_id : Str
  pub registry : NodeRegistry
  pub store : Store
  pub ring : Ring F
  pub replication : ReplicationManager

-- An event as it reaches the callback: its time, and the registry as the membership, which shares it,
-- has left it by then.
pub record Delivery : Type 0 where
  pub now : ℕ
  pub registry : NodeRegistry
  pub event : MembershipEvent

-- The parts that `main` makes from a configuration, with this node alone in the ring.
unfoldable pub new_cache_node :
    (fl : Float64) → (List VNode → List VNode) → Store → Config fl.Number → CacheNode fl.Number
new_cache_node fl sort_slice s cfg = record {
  node_id = cfg.node_id;
  registry = new_node_registry cfg.node_id;
  store = s;
  ring = (add_node sort_slice cfg.node_id (new_ring fl cfg.virtual_nodes cfg.max_load_factor)).0;
  replication = new_replication_manager cfg.node_id cfg.replica_count;
}

module _ {F : Type 0} where
  -- A peer of another name is connected to; an error is not looked at.
  unfoldable pub connect : (Str → Bool) → Str → NodeInfo → CacheNode F → CacheNode F
  connect dials node_id info n =
      if str_eq node_id n.node_id
      then n
      else record n { replication = (connect_to_peer dials node_id info.grpc_addr n.replication).0 }

  unfoldable pub on_node_added : (Str → Bool) → Str → CacheNode F → CacheNode F
  on_node_added dials node_id n = elim (Node.get node_id n.registry) [
    | none ↦ n
    | some info ↦ connect dials node_id info n
  ]

  unfoldable pub on_node_removed : ℕ → Str → CacheNode F → Option (CacheNode F)
  on_node_removed now node_id n = do
    rm ← handle_node_failure n.ring now node_id n.store n.replication
    some (record n { replication = rm })

  unfoldable pub add_to_ring :
      (List VNode → List VNode) → (Str → Bool) → Str → CacheNode F → CacheNode F
  add_to_ring sort_slice dials node_id n =
      let added = add_node sort_slice node_id n.ring in
      let n' = record n { ring = added.0 } in if added.1 then on_node_added dials node_id n' else n'

  unfoldable pub remove_from_ring : ℕ → Str → CacheNode F → Option (CacheNode F)
  remove_from_ring now node_id n =
      let removed = remove_node node_id n.ring in
      let n' = record n { ring = removed.0 } in
      elim removed.1 [ true ↦ on_node_removed now node_id n' | false ↦ some n' ]

  unfoldable pub node_up :
      (List VNode → List VNode) → (Str → Bool) → Str → CacheNode F → CacheNode F
  node_up sort_slice dials node_id n = elim (Node.get node_id n.registry) [
    | none ↦ n
    | some info ↦ connect dials node_id info (add_to_ring sort_slice dials node_id n)
  ]

  unfoldable pub on_event :
      (List VNode → List VNode)
      → (Str → Bool)
      → ℕ
      → MembershipEvent
      → CacheNode F
      → Option (CacheNode F)
  on_event sort_slice dials now event n = elim event.type [
    | event_join ↦ some (node_up sort_slice dials event.node_id n)
    | event_alive ↦ some (node_up sort_slice dials event.node_id n)
    | event_suspect ↦ some n
    | event_dead ↦ remove_from_ring now event.node_id n
    | event_left ↦ remove_from_ring now event.node_id n
  ]

  -- Events one after the other.
  unfoldable pub on_events :
      (List VNode → List VNode) → (Str → Bool) → List Delivery → CacheNode F → Option (CacheNode F)
  on_events sort_slice dials [] n = some n
  on_events sort_slice dials (d ∷ ds) n =
      on_event sort_slice dials d.now d.event (record n { registry = d.registry })
      >>= on_events sort_slice dials ds
