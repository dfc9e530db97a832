-- ===== src/Cluster/Membership/Messages.antt =====
-- internal/cluster/membership.go: messages, probes, and joining and leaving the cluster.
use distributed_cache_system.Prelude.{
  ℕ, ◌+◌, Bool, true, false, not, ◌&&◌, ◌||◌, Option, none, some, List, [], ◌∷◌, map, Str, codes,
  str_eq, if◌then◌else◌, ◌==◌, length, get_elem?, take, keep_if,
}
use distributed_cache_system.Prelude.Assoc
use distributed_cache_system.Prelude.Assoc.{Map, lookup, insert, has}
use distributed_cache_system.Cluster.Node
use distributed_cache_system.Cluster.Node.{
  alive, left, is_alive, is_suspect, NodeInfo, NodeRegistry, set_status, touch, register, get_all,
}
use distributed_cache_system.Cluster.Membership.{
  Membership, MembershipUpdate, MessageType, SwimMessage, msg_ping, msg_ack, msg_ping_req, msg_join,
  msg_other, is_blocked, send, queue_update, drain_updates,
}
use distributed_cache_system.Cluster.Membership.Transitions.{
  write_node, status_update, mark_suspect, apply_update_among,
}

-- A message from this node.
abbrev pub message : MessageType → Str → List MembershipUpdate → Membership → SwimMessage
message type target updates m = record {
  type = type;
  sender_id = m.self_id;
  sender_addr = m.self_info.gossip_addr;
  target_id = target;
  incarnation = m.incarnation;
  updates = updates;
}

unfoldable pub handle_ping : Str → Membership → Membership
handle_ping from m =
    let (updates, m') = drain_updates m in send from (message msg_ack (codes "") updates m) m'

-- The waiting probe is told by the removal of its entry.
unfoldable pub handle_ack : ℕ → SwimMessage → Membership → Membership
handle_ack now msg m =
    let m' = record m { pending_acks = Assoc.delete msg.sender_id m.pending_acks } in
    elim (Node.get msg.sender_id m.registry) [
      | none ↦ m'
      | some info ↦ write_node msg.sender_id (touch now info) m'
    ]

abbrev pub update_of : NodeInfo → MembershipUpdate
update_of n = record {
  node_id = n.id;
  grpc_addr = n.grpc_addr;
  gossip_addr = n.gossip_addr;
  http_addr = n.http_addr;
  status = n.status;
  incarnation = n.incarnation;
}

unfoldable pub handle_join : Str → Membership → Membership
handle_join from m = send from (message msg_ack (codes "") (map update_of (get_all m.registry)) m) m

-- How a wait for an ack ends: by the ack, by its timeout, or because the protocol stops.
pub data Wait : Type 0 where
  acked timed_out stopped : Wait

-- The end of a wait. Until then other goroutines change the membership by `during`.
unfoldable pub await : (Membership → Membership) → Wait → Str → Membership → Membership × Bool
await during acked target m = (during m, true)
await during timed_out target m =
    let m' = during m in (record m' { pending_acks = Assoc.delete target m'.pending_acks }, false)
await during stopped target m = (during m, false)

-- `resolves` says which addresses can be resolved.
unfoldable pub send_ping_and_wait :
    (Str → Bool) → (Membership → Membership) → Wait → Str → Str → Membership → Membership × Bool
send_ping_and_wait resolves during wait addr target m =
    if is_blocked target m || not (resolves addr)
    then (m, false)
    else (let m' = record m { pending_acks = insert target tt m.pending_acks } in
        let (updates, m'') = drain_updates m' in
        await during wait target (send addr (message msg_ping (codes "") updates m'') m''))

-- The ping-reqs to the chosen proxies that can be reached.
unfoldable pub send_to_proxies : (Str → Bool) → Str → List NodeInfo → Membership → Membership
send_to_proxies resolves target [] m = m
send_to_proxies resolves target (p ∷ ps) m = send_to_proxies resolves target ps (
    if is_blocked p.id m || not (resolves p.gossip_addr)
    then m
    else send p.gossip_addr (message msg_ping_req target [] m) m)

-- `shuffle` is `rand.Shuffle`.
unfoldable pub send_ping_reqs :
    (Str → Bool)
    → (List NodeInfo → List NodeInfo)
    → (Membership → Membership)
    → Wait
    → NodeInfo
    → Membership
    → Membership × Bool
send_ping_reqs resolves shuffle during wait target m =
    let proxies =
      keep_if
        (λ (n : NodeInfo).
          not (str_eq n.id m.self_id) && not (str_eq n.id target.id) && is_alive n.status)
        (get_all m.registry) in
    if length proxies == 0
    then (m, false)
    else await during wait target.id (
        send_to_proxies resolves target.id (take m.ping_req_count (shuffle proxies))
          (record m { pending_acks = insert target.id tt m.pending_acks }))

-- The nodes that may be probed.
unfoldable pub candidates : Membership → List NodeInfo
candidates m =
    keep_if
      (λ (n : NodeInfo). not (str_eq n.id m.self_id) && (is_alive n.status || is_suspect n.status))
      (get_all m.registry)

-- The environment of one round of probing.
pub record Round : Type 0 where
  pub resolves : Str → Bool
  pub intn : ℕ → ℕ
  pub shuffle : List NodeInfo → List NodeInfo
  pub during_direct : Membership → Membership
  pub direct : Wait
  pub during_indirect : Membership → Membership
  pub indirect : Wait
  pub now : ℕ

-- `none` is a run-time panic: a draw out of range.
unfoldable pub ping_random_member : Round → Membership → Option Membership
ping_random_member e m =
    let cs = candidates m in
    if length cs == 0 then some m else elim (get_elem? cs (e.intn (length cs))) [
      | none ↦ none
      | some target ↦
          let (m₁, direct) =
            send_ping_and_wait e.resolves e.during_direct e.direct target.gossip_addr target.id m in
          if direct
          then some m₁
          else (let (m₂, indirect) =
                send_ping_reqs e.resolves e.shuffle e.during_indirect e.indirect target m₁ in
              if indirect then some m₂ else some (mark_suspect e.now target.id m₂))
    ]

unfoldable pub handle_ping_req :
    (Str → Bool) → (Membership → Membership) → Wait → SwimMessage → Str → Membership → Membership
handle_ping_req resolves during wait msg from m = elim (Node.get msg.target_id m.registry) [
  | none ↦ m
  | some info ↦
      let (m', ok) = send_ping_and_wait resolves during wait info.gossip_addr msg.target_id m in
      if ok
      then send from
          (record {
            type = msg_ack;
            sender_id = msg.target_id;
            sender_addr = info.gossip_addr;
            target_id = codes "";
            incarnation = m'.incarnation;
            updates = [];
          })
          m'
      else m'
]

-- The i-th update from here on is applied while other goroutines do `meanwhile i`.
unfoldable pub apply_updates :
    (ℕ → Membership → Membership) → ℕ → List MembershipUpdate → Membership → Membership
apply_updates meanwhile now [] m = m
apply_updates meanwhile now (u ∷ us) m =
    apply_updates (λ i. meanwhile (i + 1)) now us (apply_update_among (meanwhile 0) now u m)

-- `handleMessage`; `meanwhile` is about the updates, and `resolves`, `during` and `wait` are about the
-- probe of a ping-req.
unfoldable pub handle_message :
    (ℕ → Membership → Membership)
    → (Str → Bool)
    → (Membership → Membership)
    → Wait
    → ℕ
    → SwimMessage
    → Str
    → Membership
    → Membership
handle_message meanwhile resolves during wait now msg from m =
    let m' = apply_updates meanwhile now msg.updates m in
    elim msg.type [
      | msg_ping ↦ handle_ping from m'
      | msg_ack ↦ handle_ack now msg m'
      | msg_ping_req ↦ handle_ping_req resolves during wait msg from m'
      | msg_join ↦ handle_join from m'
      | msg_other n ↦ m'
    ]

-- A decoded packet in the receive loop: dropped if its sender is cut off.
unfoldable pub receive :
    (ℕ → Membership → Membership)
    → (Str → Bool)
    → (Membership → Membership)
    → Wait
    → ℕ
    → SwimMessage
    → Str
    → Membership
    → Membership
receive meanwhile resolves during wait now msg from m =
    if is_blocked msg.sender_id m
    then m
    else handle_message meanwhile resolves during wait now msg from m

-- This node's own entry, as it is announced.
abbrev pub self_update : Membership → MembershipUpdate
self_update m = record {
  node_id = m.self_id;
  grpc_addr = m.self_info.grpc_addr;
  gossip_addr = m.self_info.gossip_addr;
  http_addr = m.self_info.http_addr;
  status = alive;
  incarnation = m.incarnation;
}

-- `Start`, once the socket is open.
unfoldable pub start : Membership → Membership
start m = queue_update (self_update m) (record m { registry = register m.self_info m.registry })

-- The join message to each seed that can be reached, and whether there was one.
unfoldable pub join_seeds : (Str → Bool) → List Str → Bool → Membership → Membership × Bool
join_seeds reachable [] joined m = (m, joined)
join_seeds reachable (addr ∷ addrs) joined m =
    join_seeds reachable addrs (if reachable addr then true else joined) (
      if reachable addr
      then send addr (message msg_join (codes "") (self_update m ∷ []) m) m
      else m)

-- The result says whether `JoinCluster` returned without an error.
unfoldable pub join_cluster : (Str → Bool) → List Str → Membership → Membership × Bool
join_cluster reachable [] m = (m, true)
join_cluster reachable (addr ∷ addrs) m = join_seeds reachable (addr ∷ addrs) false m

-- `Stop`: the leave update is queued. The pointer `selfInfo` also stands in the registry.
unfoldable pub stop : Membership → Membership
stop m =
    let info = set_status left m.self_info in
    let m' = record m { self_info = info } in
    let m'' = if has m.self_id m.registry.nodes then write_node m.self_id info m' else m' in
    record (queue_update (status_update m.self_id left m.incarnation) m'') { suspicion_timers = [] }
