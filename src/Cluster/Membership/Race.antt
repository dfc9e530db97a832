-- ===== src/Cluster/Membership/Race.antt =====
-- internal/cluster/membership.go: an alive report and the probe loop at the same time.
use distributed_cache_system.Prelude.{
  ℕ, ◌≤◌, ◌≡◌, refl, ap, ◌∙◌, false, none, some, Str, str_eq, str_eq_refl, ltb, arith,
}
use distributed_cache_system.Prelude.Assoc.{lookup, lookup-insert_self, lookup-delete}
use distributed_cache_system.Cluster.Node
use distributed_cache_system.Cluster.Node.{
  NodeStatus, alive, suspect, dead, left, other, is_alive, is_suspect, is_dead, is_left, NodeInfo,
  new_node_info, set_status, touch, register,
}
use distributed_cache_system.Cluster.Membership.{
  Membership, MembershipUpdate, event_alive, emit_event, queue_update_locked,
}
use distributed_cache_system.Cluster.Membership.Transitions.{
  write_node, cancel_timer, start_timer, mark_suspect, apply_alive, apply_status_among,
  apply_update_among,
}

suspected_again :
    (later : ℕ) (id : Str) (m : Membership) (n : NodeInfo)
    → Node.get id m.registry ≡ some n
    → n.status ≡ alive
    → (Node.get id (emit_event event_alive id (cancel_timer id (mark_suspect later id m))).registry
        ≡ some (record n { status = suspect }))
      × (lookup id
            (emit_event event_alive id (cancel_timer id (mark_suspect later id m))).suspicion_timers
          ≡ none)
unfolding mark_suspect queue_update_locked write_node cancel_timer start_timer emit_event set_status
    Node.get
suspected_again later id m n here up = (
  (rw (here, mark_suspect, up)
      (lookup-insert_self id (record n { status = suspect }) m.registry.nodes)),
  rw (lookup-delete, str_eq_refl id) refl,
)

-- An alive report about a registered node that is not alive, not older than its entry, leaves the
-- node suspected without a timer if the probe loop finds the node unresponsive after the report has
-- written the entry and before it takes the lock.
pub apply_alive-race :
    (now later : ℕ) (u : MembershipUpdate) (m : Membership) (n : NodeInfo)
    → str_eq u.node_id m.self_id ≡ false
    → Node.get u.node_id m.registry ≡ some n
    → n.incarnation ≤ u.incarnation
    → u.status ≡ alive
    → is_alive n.status ≡ false
    → (n' : NodeInfo) × (Node.get u.node_id
          (apply_update_among (mark_suspect later u.node_id) now u m).registry
        ≡ some n')
      × (n'.status ≡ suspect)
      × (lookup u.node_id
            (apply_update_among (mark_suspect later u.node_id) now u m).suspicion_timers
          ≡ none)
unfolding apply_update_among apply_status_among apply_alive write_node Node.get
apply_alive-race now later u m n foreign here recent reports waiting =
    let new : ltb u.incarnation n.incarnation ≡ false = ground arith in
    let id = u.node_id in
    let node = touch now (record (set_status alive n) { incarnation = u.incarnation }) in
    let m₁ = write_node id node m in
    let applied : apply_update_among (mark_suspect later id) now u m
        ≡ emit_event event_alive id (cancel_timer id (mark_suspect later id m₁)) =
      rw (foreign, here, new, reports, waiting) refl in
    let (registered, untimed) =
      suspected_again later id m₁ node (lookup-insert_self id node m.registry.nodes)
        (unfold touch set_status in refl) in
    (
      record node { status = suspect },
      ap (λ m. Node.get id m.registry) applied ∙ registered,
      refl,
      ap (λ m. lookup id m.suspicion_timers) applied ∙ untimed,
    )
