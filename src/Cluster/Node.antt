-- ===== src/Cluster/Node.antt =====
-- internal/cluster/node.go: the known nodes and their registry.
use distributed_cache_system.Prelude.{
  ℕ, Bool, true, false, Option, List, [], map, Str, codes, length, keep_if,
}
use distributed_cache_system.Prelude.Assoc
use distributed_cache_system.Prelude.Assoc.{Map, lookup, insert}

-- `other n` is a number that no constant names; such a status can arrive in a message.
pub data NodeStatus : Type 0 where
  alive suspect dead left : NodeStatus
  other : ℕ → NodeStatus

unfoldable pub status_name : NodeStatus → Str
status_name alive = codes "ALIVE"
status_name suspect = codes "SUSPECT"
status_name dead = codes "DEAD"
status_name left = codes "LEFT"
status_name (other n) = codes "UNKNOWN"

abbrev pub is_alive : NodeStatus → Bool
is_alive alive = true
is_alive suspect = false
is_alive dead = false
is_alive left = false
is_alive (other n) = false

abbrev pub is_suspect : NodeStatus → Bool
is_suspect alive = false
is_suspect suspect = true
is_suspect dead = false
is_suspect left = false
is_suspect (other n) = false

abbrev pub is_dead : NodeStatus → Bool
is_dead alive = false
is_dead suspect = false
is_dead dead = true
is_dead left = false
is_dead (other n) = false

abbrev pub is_left : NodeStatus → Bool
is_left alive = false
is_left suspect = false
is_left dead = false
is_left left = true
is_left (other n) = false

pub record NodeInfo : Type 0 where
  pub id : Str
  pub grpc_addr : Str
  pub gossip_addr : Str
  pub http_addr : Str
  pub status : NodeStatus
  pub incarnation : ℕ
  pub joined_at : ℕ
  pub last_seen : ℕ

unfoldable pub new_node_info : ℕ → Str → Str → Str → Str → NodeInfo
new_node_info now id grpc_addr gossip_addr http_addr = record {
  id = id;
  grpc_addr = grpc_addr;
  gossip_addr = gossip_addr;
  http_addr = http_addr;
  status = alive;
  incarnation = 0;
  joined_at = now;
  last_seen = now;
}

unfoldable pub set_status : NodeStatus → NodeInfo → NodeInfo
set_status s n = record n { status = s }

unfoldable pub touch : ℕ → NodeInfo → NodeInfo
touch now n = record n { last_seen = now }

-- The registry's map. A write through a pointer that `get` returned is a write under the same key.
pub record NodeRegistry : Type 0 where
  pub nodes : Map NodeInfo
  pub self : Str

unfoldable pub new_node_registry : Str → NodeRegistry
new_node_registry self = record { nodes = []; self = self }

unfoldable pub register : NodeInfo → NodeRegistry → NodeRegistry
register info nr = record nr { nodes = insert info.id info nr.nodes }

unfoldable pub remove : Str → NodeRegistry → NodeRegistry
remove id nr = record nr { nodes = Assoc.delete id nr.nodes }

unfoldable pub get : Str → NodeRegistry → Option NodeInfo
get id nr = lookup id nr.nodes

unfoldable pub get_all : NodeRegistry → List NodeInfo
get_all nr = map (λ (kv : Str × NodeInfo). kv.1) nr.nodes

unfoldable pub get_alive : NodeRegistry → List NodeInfo
unfolding get_all
get_alive nr = keep_if (λ (n : NodeInfo). is_alive n.status) (get_all nr)

unfoldable pub size : NodeRegistry → ℕ
size nr = length nr.nodes
