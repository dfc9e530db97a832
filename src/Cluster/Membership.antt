-- ===== src/Cluster/Membership.antt =====
-- internal/cluster/membership.go: the state of the SWIM protocol and its update queue.
-- Events for the callback and messages for the network are kept in the order they are sent; a
-- suspicion timer is the time at which it fires.
pub mod Transitions
pub mod Messages
pub mod Queue
pub mod Dissemination
pub mod Updates
pub mod Suspicion
pub mod Race
pub mod Refutation
pub mod Probes
use distributed_cache_system.Prelude.{
  ℕ, zero, suc, ◌+◌, ◌^◌, Bool, true, false, Option, none, some, List, [], ◌∷◌, ◌++◌, Str, str_eq,
  if◌then◌else◌, ltb, leb, length,
}
use distributed_cache_system.Prelude.Assoc.{Map}
use distributed_cache_system.Chaos.{FaultInjector, is_partitioned}
use distributed_cache_system.Cluster.Node.{NodeStatus, NodeInfo, NodeRegistry}

abbrev pub max_piggyback_updates : ℕ
max_piggyback_updates = 10

abbrev pub default_ping_req_count : ℕ
default_ping_req_count = 3

abbrev pub default_suspicion_timeout : ℕ
default_suspicion_timeout = 3000000000

pub record MembershipUpdate : Type 0 where
  pub node_id : Str
  pub grpc_addr : Str
  pub gossip_addr : Str
  pub http_addr : Str
  pub status : NodeStatus
  pub incarnation : ℕ

pub data MessageType : Type 0 where
  msg_ping msg_ack msg_ping_req msg_join : MessageType
  msg_other : ℕ → MessageType

pub record SwimMessage : Type 0 where
  pub type : MessageType
  pub sender_id : Str
  pub sender_addr : Str
  pub target_id : Str
  pub incarnation : ℕ
  pub updates : List MembershipUpdate

pub data MembershipEventType : Type 0 where
  event_join event_alive event_suspect event_dead event_left : MembershipEventType

pub record MembershipEvent : Type 0 where
  pub type : MembershipEventType
  pub node_id : Str

pub record QueuedUpdate : Type 0 where
  pub update : MembershipUpdate
  pub sent_count : ℕ

pub record Membership : Type 0 where
  pub self_id : Str
  pub self_info : NodeInfo
  pub registry : NodeRegistry
  pub incarnation : ℕ
  pub injector : Option FaultInjector
  -- The targets that an ack is awaited from.
  pub pending_acks : Map (Unit {0})
  pub update_queue : List QueuedUpdate
  pub suspicion_timers : Map ℕ
  pub suspicion_timeout : ℕ
  pub ping_req_count : ℕ
  pub events : List MembershipEvent
  pub sent : List (Str × SwimMessage)

unfoldable pub new_membership : NodeInfo → NodeRegistry → Membership
new_membership self_info registry = record {
  self_id = self_info.id;
  self_info = self_info;
  registry = registry;
  incarnation = 0;
  injector = none;
  pending_acks = [];
  update_queue = [];
  suspicion_timers = [];
  suspicion_timeout = default_suspicion_timeout;
  ping_req_count = default_ping_req_count;
  events = [];
  sent = [];
}

unfoldable pub set_fault_injector : FaultInjector → Membership → Membership
set_fault_injector fi m = record m { injector = some fi }

-- Whether traffic with a peer is cut.
unfoldable pub is_blocked : Str → Membership → Bool
is_blocked peer m = elim m.injector [
  | none ↦ false
  | some fi ↦ if fi.failed then true else is_partitioned peer fi
]

unfoldable pub emit_event : MembershipEventType → Str → Membership → Membership
emit_event type node_id m = record m {
  events = m.events ++ record { type = type; node_id = node_id } ∷ [];
}

unfoldable pub send : Str → SwimMessage → Membership → Membership
send addr msg m = record m { sent = m.sent ++ (addr, msg) ∷ [] }

-- An update replaces the queued one about its node, unless that has a higher incarnation.
unfoldable pub enqueue : MembershipUpdate → List QueuedUpdate → List QueuedUpdate
enqueue u [] = record { update = u; sent_count = 0 } ∷ []
enqueue u (q ∷ qs) =
    if str_eq q.update.node_id u.node_id
    then (if leb q.update.incarnation u.incarnation
        then record { update = u; sent_count = 0 } ∷ qs
        else q ∷ qs)
    else q ∷ enqueue u qs

unfoldable pub queue_update : MembershipUpdate → Membership → Membership
queue_update u m = record m { update_queue = enqueue u m.update_queue }

-- The same, for callers that hold the lock of the membership.
unfoldable pub queue_update_locked : MembershipUpdate → Membership → Membership
queue_update_locked u m = record m { update_queue = enqueue u m.update_queue }

-- The loop of `drainUpdates`: the updates taken so far and the queue that stays.
unfoldable pub drain_loop :
    List MembershipUpdate
    → List QueuedUpdate
    → List QueuedUpdate
    → List MembershipUpdate × List QueuedUpdate
drain_loop updates active [] = (updates, active)
drain_loop updates active (q ∷ qs) =
    let taken = ltb (length updates) max_piggyback_updates in
    let q' : QueuedUpdate = if taken then record q { sent_count = q.sent_count + 1 } else q in
    drain_loop (if taken then updates ++ q.update ∷ [] else updates)
      (if ltb q'.sent_count 3 then active ++ q' ∷ [] else active) qs

unfoldable pub drain_updates : Membership → List MembershipUpdate × Membership
drain_updates m =
    let (updates, active) = drain_loop [] [] m.update_queue in
    (updates, record m { update_queue = active })
