-- ===== src/Cluster/Membership/Transitions.antt =====
-- internal/cluster/membership.go: the changes of a node's status.
use distributed_cache_system.Prelude.{
  ℕ, ◌+◌, ◌%◌, ◌||◌, none, some, Str, codes, str_eq, if◌then◌else◌, ltb, leb, u64_mod,
}
use distributed_cache_system.Prelude.Assoc
use distributed_cache_system.Prelude.Assoc.{Map, lookup, insert}
use distributed_cache_system.Cluster.Node
use distributed_cache_system.Cluster.Node.{
  NodeStatus, alive, suspect, dead, left, other, is_alive, is_suspect, is_dead, is_left, NodeInfo,
  NodeRegistry, new_node_info, set_status, touch, register,
}
use distributed_cache_system.Cluster.Membership.{
  Membership, MembershipUpdate, event_join, event_alive, event_suspect, event_dead, event_left,
  emit_event, queue_update, queue_update_locked,
}

-- A write to a registered node through its pointer.
unfoldable pub write_node : Str → NodeInfo → Membership → Membership
write_node id info m = record m {
  registry = record m.registry { nodes = insert id info m.registry.nodes };
}

-- `timer.Stop()` and `delete(m.suspicionTimers, nodeID)`, where there is one.
unfoldable pub cancel_timer : Str → Membership → Membership
cancel_timer id m = record m { suspicion_timers = Assoc.delete id m.suspicion_timers }

-- A new suspicion timer, in place of an older one.
unfoldable pub start_timer : ℕ → Str → Membership → Membership
start_timer now id m = record m {
  suspicion_timers = insert id (now + m.suspicion_timeout) m.suspicion_timers;
}

-- An update about a node that carries its status only.
abbrev pub status_update : Str → NodeStatus → ℕ → MembershipUpdate
status_update id status incarnation = record {
  node_id = id;
  grpc_addr = codes "";
  gossip_addr = codes "";
  http_addr = codes "";
  status = status;
  incarnation = incarnation;
}

unfoldable pub mark_suspect : ℕ → Str → Membership → Membership
mark_suspect now id m = elim (Node.get id m.registry) [
  | none ↦ m
  | some info ↦
      if is_dead info.status || is_left info.status
      then m
      else if is_suspect info.status
      then m
      else start_timer now id (
          emit_event event_suspect id (
            queue_update_locked (status_update id suspect info.incarnation)
              (write_node id (set_status suspect info) m)))
]

unfoldable pub mark_dead : Str → Membership → Membership
mark_dead id m = elim (Node.get id m.registry) [
  | none ↦ m
  | some info ↦
      if is_dead info.status
      then m
      else emit_event event_dead id (
          queue_update_locked (status_update id dead info.incarnation)
            (cancel_timer id (write_node id (set_status dead info) m)))
]

unfoldable pub mark_suspect_locked : ℕ → Str → NodeInfo → Membership → Membership
mark_suspect_locked now id info m =
    emit_event event_suspect id (start_timer now id (write_node id (set_status suspect info) m))

unfoldable pub refute : MembershipUpdate → Membership → Membership
refute u m =
    let incarnation =
      if leb m.incarnation u.incarnation then (u.incarnation + 1) % u64_mod else m.incarnation in
    queue_update_locked
      (record {
        node_id = m.self_id;
        grpc_addr = m.self_info.grpc_addr;
        gossip_addr = m.self_info.gossip_addr;
        http_addr = m.self_info.http_addr;
        status = alive;
        incarnation = incarnation;
      })
      (record m { incarnation = incarnation })

-- An update about a node that is not registered.
unfoldable pub discover : ℕ → MembershipUpdate → Membership → Membership
discover now u m =
    if is_alive u.status
    then queue_update u (
        emit_event event_join u.node_id (record m {
          registry =
              register
                (record (new_node_info now u.node_id u.grpc_addr u.gossip_addr u.http_addr) {
                  incarnation = u.incarnation;
                })
                m.registry;
        }))
    else m

-- An alive report about the registered node `info`, whose entry is written before the lock is taken
-- for its timer; `meanwhile` is what other goroutines do in between.
unfoldable pub apply_alive :
    (Membership → Membership) → ℕ → MembershipUpdate → NodeInfo → Membership → Membership
apply_alive meanwhile now u info m =
    if is_alive info.status
    then m
    else emit_event event_alive u.node_id (
        cancel_timer u.node_id (
          meanwhile (
            write_node u.node_id
              (touch now (record (set_status alive info) { incarnation = u.incarnation })) m)))

-- The switch on the status of an update about the registered node `info`.
unfoldable pub apply_status_among :
    (Membership → Membership)
    → ℕ
    → MembershipUpdate
    → NodeInfo
    → NodeStatus
    → Membership
    → Membership
apply_status_among meanwhile now u info alive m = apply_alive meanwhile now u info m
apply_status_among meanwhile now u info suspect m =
    if is_alive info.status then mark_suspect_locked now u.node_id info m else m
apply_status_among meanwhile now u info dead m =
    if is_dead info.status
    then m
    else emit_event event_dead u.node_id
        (cancel_timer u.node_id (write_node u.node_id (set_status dead info) m))
apply_status_among meanwhile now u info left m =
    emit_event event_left u.node_id (write_node u.node_id (set_status left info) m)
apply_status_among meanwhile now u info (other n) m = m

-- `applyUpdate` while other goroutines do `meanwhile`.
unfoldable pub apply_update_among :
    (Membership → Membership) → ℕ → MembershipUpdate → Membership → Membership
apply_update_among meanwhile now u m =
    if str_eq u.node_id m.self_id
    then (if is_suspect u.status || is_dead u.status then refute u m else m)
    else elim (Node.get u.node_id m.registry) [
      | none ↦ discover now u m
      | some info ↦
          if ltb u.incarnation info.incarnation
          then m
          else apply_status_among meanwhile now u info u.status m
    ]

-- The two where nothing comes in between.
abbrev pub apply_status : ℕ → MembershipUpdate → NodeInfo → NodeStatus → Membership → Membership
apply_status now u info status m = apply_status_among (λ m. m) now u info status m

abbrev pub apply_update : ℕ → MembershipUpdate → Membership → Membership
apply_update now u m = apply_update_among (λ m. m) now u m
