-- ===== src/Tests/Replication.antt =====
-- Two nodes, east and west, that replicate every key to each other.
use distributed_cache_system.Prelude.{
  ℕ, ◌≤◌, ◌≡◌, refl, true, false, none, some, List, [], ◌∷◌, Str, codes, str_eq, str_eq_iff, ◌≢◌,
  ◌↔◌, inl, length, arith, if◌then◌else◌, pos,
}
use distributed_cache_system.Prelude.Assoc.{lookup, insert, has}
use distributed_cache_system.CacheNode.{CacheNode, Delivery, on_event, on_events, new_cache_node}
use distributed_cache_system.CacheNode.Configured.{new_cache_node-validate}
use distributed_cache_system.CacheNode.Steps.{IsRunning}
use distributed_cache_system.CacheNode.Peers.{connected, member_after, link_after}
use distributed_cache_system.Cluster.Node
use distributed_cache_system.Cluster.Node.{NodeRegistry, new_node_info}
use distributed_cache_system.CacheNode.Running.{new_cache_node-on_events}
use distributed_cache_system.Config.{Config, default_config, validate}
use distributed_cache_system.Tests.Rings.{whole_numbers, by_insertion}
use distributed_cache_system.CacheNode.Failure.{on_event-Carries}
use distributed_cache_system.Cluster.Membership.{MembershipEvent, event_dead, event_join}
use distributed_cache_system.Cluster.Replication.{
  ReplicationManager, is_primary, is_replica, get_primary, get_replica_set, replicate, close,
  send_replicate, event_capacity,
}
use distributed_cache_system.Cluster.Replication.Primary.{remove_node-get_primary}
use distributed_cache_system.Cluster.Replication.Shutdown.{send_replicate-close}
use distributed_cache_system.Cluster.Replication.Writes.{replicate-panics}
use distributed_cache_system.Proto.{ReplicateRequest, op_set}
use distributed_cache_system.Store.{no_stats}
use distributed_cache_system.Hash.{fnv64a}
use distributed_cache_system.Ring.{
  Ring, get_nodes, nodes_walk, search, bisect, at_least, hash_key, has_node, remove_node, is_empty,
}
use distributed_cache_system.Ring.Order.{count_if}
use distributed_cache_system.Ring.Owners.{belongs}
use distributed_cache_system.Ring.Valid.{IsValid as IsValidRing}

abbrev pub east : Str
east = codes "east"

abbrev pub west : Str
west = codes "west"

abbrev pub apple : Str
apple = codes "apple"

east-not_west : str_eq east west ≡ false
unfolding str_eq
east-not_west = refl

pub west-not_east : west ≢ east
west-not_east same = ground (arith, str_eq_iff west east, east-not_west, str_eq_iff east west)

-- One virtual node each.
abbrev pub ring : Ring ℕ
ring = record {
  vnodes =
      record { hash = 10; node_id = east; index = 0 }
      ∷ record { hash = 20; node_id = west; index = 0 }
      ∷ [];
  node_vnodes = 1;
  nodes = (east, true) ∷ (west, true) ∷ [];
  loads = (east, 0) ∷ (west, 0) ∷ [];
  max_load_factor = 0;
}

abbrev pub manager : Str → ReplicationManager
manager id = record {
  self_id = id;
  replica_count = 2;
  sequence = 0;
  peer_conns = (east, codes "e:1") ∷ (west, codes "w:1") ∷ [];
  replication_events = [];
  events_closed = false;
  pending = [];
}

pub east-is_primary : is_primary ring apple (manager east) ≡ some true
unfolding is_primary get_nodes nodes_walk search bisect at_least hash_key fnv64a lookup str_eq
east-is_primary = refl

pub west-is_not_primary : is_primary ring apple (manager west) ≡ some false
unfolding is_primary get_nodes nodes_walk search bisect at_least hash_key fnv64a lookup str_eq
west-is_not_primary = refl

pub west-is_replica : is_replica ring apple (manager west) ≡ some true
unfolding is_replica get_nodes nodes_walk search bisect at_least hash_key fnv64a insert lookup
    str_eq
west-is_replica = refl

pub ring-replicas : get_replica_set ring apple (manager east) ≡ some (east ∷ west ∷ [])
unfolding get_replica_set get_nodes nodes_walk search bisect at_least hash_key fnv64a insert lookup
    str_eq
ring-replicas = refl

placed_once : (q : Str) → count_if (belongs q) ring.vnodes ≡ (if has q ring.nodes then 1 else 0)
unfolding lookup
placed_once q = ground (arith, str_eq_iff east q, str_eq_iff west q, east-not_west)

loaded_once : (q : Str) → has q ring.loads ≡ has q ring.nodes
unfolding lookup
loaded_once q = ground arith

pub ring-IsValid : IsValidRing ring
unfolding lookup str_eq
ring-IsValid = record {
  sorted = ((omega arith, tt), (tt, tt));
  weighted = omega arith;
  placed = placed_once;
  members = λ q b h. ground (arith, str_eq_iff east q, str_eq_iff west q);
  unique = (refl, (refl, tt));
  loaded = loaded_once;
}

has_node-east : has_node east ring ≡ true
unfolding has_node lookup str_eq
has_node-east = refl

has_node-west : has_node west ring ≡ true
unfolding has_node lookup str_eq
has_node-west = refl

remove_node-get_primary_example :
    get_primary (remove_node east ring).0 apple (manager east)
    ≡ some (some (if str_eq east east then west else east))
remove_node-get_primary_example =
    remove_node-get_primary ring (manager east) apple east east west [] ring-IsValid has_node-east
      ring-replicas

replicate-panics_example :
    (replicate ring apple (codes "red") (pos 0) op_set (manager east) ≡ none)
    ↔ (is_empty ring ≡ true)
replicate-panics_example =
    replicate-panics ring ring-IsValid (manager east) (omega arith) apple (codes "red") (pos 0)
      op_set

abbrev closed : ReplicationManager
closed = record (manager east) { peer_conns = []; events_closed = true }

close-east : close (manager east) ≡ some closed
unfolding close
close-east = refl

abbrev pub copy : ReplicateRequest
copy = record {
  key = apple;
  value = codes "red";
  ttl_ms = pos 5;
  sequence = 7;
  source_node = east;
  op = op_set;
}

send_replicate-close_example :
    (close closed ≡ none)
    × (send_replicate (λ c req. true) 9 west copy closed ≡ none)
    × ((rm₁ : ReplicationManager) × (send_replicate (λ c req. true) 9 west copy (manager east)
          ≡ some rm₁)
        × (length rm₁.replication_events ≤ event_capacity))
send_replicate-close_example =
    send_replicate-close (λ c req. true) 9 west copy (manager east) closed close-east (omega arith)

-- The node east with an empty store.
abbrev east_node : CacheNode ℕ
east_node = record {
  node_id = east;
  registry = record { nodes = []; self = east };
  store = record { shards = record { items = [] } ∷ []; shard_mask = 0; stats = no_stats };
  ring = ring;
  replication = manager east;
}

abbrev west_died : MembershipEvent
west_died = record { type = event_dead; node_id = west }

on_event-Carries_example :
    (n' : CacheNode ℕ) × (on_event (λ vs. vs) (λ addr. true) 5 west_died east_node ≡ some n')
    × IsValidRing n'.ring
    × (has_node west n'.ring ≡ false)
on_event-Carries_example =
    let after =
      on_event-Carries (λ vs. vs) (λ addr. true) 5 west_died east_node (inl refl) ring-IsValid
        has_node-east has_node-west west-not_east refl (omega arith) in
    (after.0, after.1, after.2, after.3)

abbrev config : Config ℕ
config = record (default_config whole_numbers) { node_id = east }

config-accepted : validate whole_numbers config ≡ none
unfolding validate default_config str_eq
config-accepted = refl

new_cache_node-validate_example :
    (pos (new_cache_node whole_numbers (λ vs. vs) east_node.store config).ring.node_vnodes
      ≡ pos 150)
    × ((new_cache_node whole_numbers (λ vs. vs) east_node.store config).ring.max_load_factor ≡ 0)
    × (pos
          (new_cache_node whole_numbers (λ vs. vs) east_node.store config).replication.replica_count
        ≡ pos 3)
    × (east ≢ codes "")
unfolding default_config
new_cache_node-validate_example =
    new_cache_node-validate whole_numbers (λ vs. vs) east_node.store config config-accepted

abbrev west_joined : MembershipEvent
west_joined = record { type = event_join; node_id = west }

-- The membership registers a node before it reports it.
abbrev registered : NodeRegistry
registered = record {
  nodes = (west, new_node_info 0 west (codes "w:1") (codes "w:2") (codes "w:3")) ∷ [];
  self = east;
}

abbrev joined_and_died : List Delivery
joined_and_died =
    record { now = 1; registry = registered; event = west_joined }
    ∷ record { now = 5; registry = registered; event = west_died }
    ∷ []

new_cache_node-on_events_example :
    (n : CacheNode ℕ) × (on_events by_insertion.sort_slice
        (λ addr. true)
        joined_and_died
        (new_cache_node whole_numbers by_insertion.sort_slice east_node.store config)
      ≡ some n)
    × IsRunning east n
    × ((q : Str)
        → (has_node q n.ring ≡ member_after q joined_and_died (str_eq east q))
          × (connected q n ≡ link_after (λ addr. true) q joined_and_died false))
unfolding default_config
new_cache_node-on_events_example =
    new_cache_node-on_events whole_numbers by_insertion (λ addr. true) east_node.store config
      joined_and_died (west-not_east, (west-not_east, tt))

-- The history tells that a node that joins is a member and connected to, and that it is neither after
-- its death.
joined_then_gone :
    (member_after west (record { now = 1; registry = registered; event = west_joined } ∷ []) false
      ≡ true)
    × (link_after
          (λ addr. true)
          west
          (record { now = 1; registry = registered; event = west_joined } ∷ [])
          false
        ≡ true)
    × (member_after west joined_and_died false ≡ false)
    × (link_after (λ addr. true) west joined_and_died false ≡ false)
unfolding lookup str_eq Node.get
joined_then_gone = (refl, refl, refl, refl)
