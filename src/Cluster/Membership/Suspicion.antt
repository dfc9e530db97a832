-- ===== src/Cluster/Membership/Suspicion.antt =====
-- Suspected nodes and their timers.
use distributed_cache_system.Prelude.{
  ℕ, ◌+◌, ◌≤◌, ◌≡◌, ◌≢◌, refl, Bool, true, false, Bool-cases, Option-cases, none, some, Str, str_eq,
  str_eq_iff, str_eq_refl, if◌then◌else◌, ltb, arith, inl, inr, ◌||◌,
}
use distributed_cache_system.Prelude.Assoc
use distributed_cache_system.Prelude.Assoc.{
  Map, lookup, insert, lookup-insert, lookup-insert_self, lookup-delete,
}
use distributed_cache_system.Cluster.Node
use distributed_cache_system.Cluster.Node.{
  NodeStatus, alive, suspect, dead, left, other, is_alive, is_suspect, is_dead, is_left, NodeInfo,
  new_node_info, set_status, touch, register,
}
use distributed_cache_system.Cluster.Membership.{
  Membership, MembershipUpdate, emit_event, queue_update, queue_update_locked,
}
use distributed_cache_system.Cluster.Membership.Transitions.{
  write_node, cancel_timer, start_timer, mark_suspect, mark_suspect_locked, mark_dead, refute,
  discover, apply_status, apply_alive, apply_update, apply_status_among, apply_update_among,
}

-- Every suspect node of a map has a timer.
abbrev Guarded : Map NodeInfo → Map ℕ → Type 0
Guarded nodes timers =
    (id : Str) (n : NodeInfo)
    → lookup id nodes ≡ some n
    → is_suspect n.status ≡ true
    → lookup id timers ≢ none

pub record Watched (m : Membership) : Type 0 where
  pub guarded : Guarded m.registry.nodes m.suspicion_timers

module _ (nodes : Map NodeInfo) (timers : Map ℕ) (g : Guarded nodes timers) (k : Str)
    (n : NodeInfo) where
  write-Guarded : is_suspect n.status ≡ false → Guarded (insert k n nodes) timers
  write-Guarded calm id n' at s = ground (arith, lookup-insert k id n nodes, g id n')

  cancel-Guarded : is_suspect n.status ≡ false → Guarded (insert k n nodes) (Assoc.delete k timers)
  cancel-Guarded calm id n' at s =
      ground (arith, lookup-insert k id n nodes, lookup-delete k id timers, g id n')

  start-Guarded : (t : ℕ) → Guarded (insert k n nodes) (insert k t timers)
  start-Guarded t id n' at s =
      ground (arith, lookup-insert k id n nodes, lookup-insert k id t timers, g id n')

  -- A write that keeps the status.
  pub rewrite-Guarded :
      (n₀ : NodeInfo)
      → lookup k nodes ≡ some n₀
      → n.status ≡ n₀.status
      → Guarded (insert k n nodes) timers
  rewrite-Guarded n₀ here same id n' at s =
      ground (arith, lookup-insert k id n nodes, g id n', g k n₀, str_eq_iff k id)

if-Watched : (b : Bool) {x y : Membership} → Watched x → Watched y → Watched (if b then x else y)
if-Watched true wx wy = wx
if-Watched false wx wy = wy

-- A node that is not suspected.
abbrev pub Calm : Str → Membership → Type 0
Calm id m = (n : NodeInfo) → lookup id m.registry.nodes ≡ some n → is_suspect n.status ≡ false

-- What other goroutines do in the middle of an update keeps the timers, and suspects no node that was
-- not suspected.
pub record Discreet (meanwhile : Membership → Membership) : Type 0 where
  pub keeps : (m : Membership) → Watched m → Watched (meanwhile m)
  pub calms : (id : Str) (m : Membership) → Calm id m → Calm id (meanwhile m)

cancel-Watched :
    (id : Str) (m : Membership)
    → Watched m
    → Calm id m
    → Guarded m.registry.nodes (Assoc.delete id m.suspicion_timers)
cancel-Watched id m w calm q n held doubted =
    ground (arith, lookup-delete id q m.suspicion_timers, w.guarded q n, calm n, str_eq_iff id q)

module _ (meanwhile : Membership → Membership) (discreet : Discreet meanwhile) (now : ℕ) where
  apply_alive-Watched :
      (u : MembershipUpdate) (n : NodeInfo) (m : Membership)
      → Watched m
      → Watched (apply_alive meanwhile now u n m)
  unfolding apply_alive write_node cancel_timer emit_event set_status touch
  apply_alive-Watched u n m w =
      let node = touch now (record n { status = alive; incarnation = u.incarnation }) in
      let m₁ = write_node u.node_id node m in
      let w₁ : Watched m₁ = record {
        guarded = write-Guarded m.registry.nodes m.suspicion_timers w.guarded u.node_id node refl;
      } in
      let calm : Calm u.node_id m₁ =
        λ n' held. ground (arith, lookup-insert_self u.node_id node m.registry.nodes) in
      if-Watched (is_alive n.status) w (record {
        guarded =
            cancel-Watched u.node_id (meanwhile m₁) (discreet.keeps m₁ w₁)
              (discreet.calms u.node_id m₁ calm);
      })

  apply_status-Watched :
      (u : MembershipUpdate) (n : NodeInfo) (s : NodeStatus) (m : Membership)
      → Watched m
      → Watched (apply_status_among meanwhile now u n s m)
  unfolding apply_status_among mark_suspect_locked write_node cancel_timer start_timer emit_event
      set_status touch
  apply_status-Watched u n alive m w = apply_alive-Watched u n m w
  apply_status-Watched u n suspect m w =
      if-Watched (is_alive n.status)
        (record {
          guarded =
              start-Guarded m.registry.nodes m.suspicion_timers w.guarded u.node_id
                (set_status suspect n) (now + m.suspicion_timeout);
        })
        w
  apply_status-Watched u n dead m w = if-Watched (is_dead n.status) w (record {
    guarded =
        cancel-Guarded m.registry.nodes m.suspicion_timers w.guarded u.node_id (set_status dead n)
          refl;
  })
  apply_status-Watched u n left m w = record {
    guarded =
        write-Guarded m.registry.nodes m.suspicion_timers w.guarded u.node_id (set_status left n)
          refl;
  }
  apply_status-Watched u n (other k) m w = w

  pub apply_update-Watched :
      (u : MembershipUpdate) (m : Membership)
      → Watched m
      → Watched (apply_update_among meanwhile now u m)
  unfolding apply_update_among discover refute queue_update_locked queue_update emit_event register
      new_node_info
  apply_update-Watched u m w = elim (Bool-cases (str_eq u.node_id m.self_id)) [
    | inl own ↦
        rw own
          (if-Watched (is_suspect u.status || is_dead u.status) (record { guarded = w.guarded }) w)
    | inr foreign ↦ elim (Option-cases (Node.get u.node_id m.registry)) [
      | inl absent ↦
          rw (foreign, absent)
            (if-Watched (is_alive u.status)
              (record {
                guarded =
                    write-Guarded m.registry.nodes m.suspicion_timers w.guarded u.node_id
                      (record (new_node_info now u.node_id u.grpc_addr u.gossip_addr u.http_addr) {
                        incarnation = u.incarnation;
                      })
                      refl;
              })
              w)
      | inr (n, present) ↦
          rw (foreign, present)
            (if-Watched (ltb u.incarnation n.incarnation) w (apply_status-Watched u n u.status m w))
    ]
  ]

module _ (now : ℕ) where
  pub mark_suspect-Watched :
      (id : Str) (m : Membership) → Watched m → Watched (mark_suspect now id m)
  unfolding mark_suspect queue_update_locked write_node start_timer emit_event set_status
  mark_suspect-Watched id m w = elim (Option-cases (Node.get id m.registry)) [
    | inl absent ↦ rw (mark_suspect, absent) w
    | inr (n, present) ↦
        rw (mark_suspect, present)
          (if-Watched (is_dead n.status || is_left n.status) w (
            if-Watched (is_suspect n.status) w (record {
              guarded =
                  start-Guarded m.registry.nodes m.suspicion_timers w.guarded id
                    (set_status suspect n) (now + m.suspicion_timeout);
            })))
  ]

mark_dead-Watched : (id : Str) (m : Membership) → Watched m → Watched (mark_dead id m)
unfolding mark_dead queue_update_locked write_node cancel_timer emit_event set_status
mark_dead-Watched id m w = elim (Option-cases (Node.get id m.registry)) [
  | inl absent ↦ rw (mark_dead, absent) w
  | inr (n, present) ↦
      rw (mark_dead, present)
        (if-Watched (is_dead n.status) w (record {
          guarded =
              cancel-Guarded m.registry.nodes m.suspicion_timers w.guarded id (set_status dead n)
                refl;
        }))
]

-- A suspected node whose timer fires is registered as dead, and its timer is gone.
mark_dead-timer :
    (id : Str) (m : Membership) (n : NodeInfo)
    → Node.get id m.registry ≡ some n
    → is_dead n.status ≡ false
    → (Node.get id (mark_dead id m).registry ≡ some (record n { status = dead }))
      × (lookup id (mark_dead id m).suspicion_timers ≡ none)
unfolding mark_dead queue_update_locked write_node cancel_timer emit_event set_status Node.get
mark_dead-timer id m n here running = ground (
  arith,
  here,
  running,
  lookup-insert id id (record n { status = dead }) m.registry.nodes,
  lookup-delete id id m.suspicion_timers,
  str_eq_refl id,
)

suspect_only : (s : NodeStatus) → is_suspect s ≡ true → is_alive s ≡ false
suspect_only alive h = ground arith
suspect_only suspect h = refl
suspect_only dead h = refl
suspect_only left h = refl
suspect_only (other k) h = refl

module _ (now : ℕ) (u : MembershipUpdate) (m : Membership) (n : NodeInfo) where
  module _ (foreign : str_eq u.node_id m.self_id ≡ false)
      (here : Node.get u.node_id m.registry ≡ some n) (recent : n.incarnation ≤ u.incarnation) where
    -- An alive report about a suspected node of another name, not older than its entry, leaves no
    -- suspicion timer for it.
    alive_report-timer :
        u.status ≡ alive
        → is_suspect n.status ≡ true
        → lookup u.node_id (apply_update now u m).suspicion_timers ≡ none
    unfolding apply_update_among apply_status_among apply_alive write_node cancel_timer emit_event
    alive_report-timer reports doubted =
        let new : ltb u.incarnation n.incarnation ≡ false = ground arith in
        let waiting : is_alive n.status ≡ false = suspect_only n.status doubted in
        rw (foreign, here, new, reports, waiting, lookup-delete, str_eq_refl u.node_id) refl

    -- A leave report about another node, not older than its entry, keeps a suspicion timer that
    -- runs, and the timer then registers the node that left as dead.
    pub leave_report-timer :
        (t : ℕ)
        → u.status ≡ left
        → lookup u.node_id m.suspicion_timers ≡ some t
        → (lookup u.node_id (apply_update now u m).suspicion_timers ≡ some t)
          × (Node.get u.node_id (mark_dead u.node_id (apply_update now u m)).registry
              ≡ some (record n { status = dead }))
    unfolding apply_update_among apply_status_among apply_alive write_node emit_event set_status
        Node.get
    leave_report-timer t reports running =
        let new : ltb u.incarnation n.incarnation ≡ false = ground arith in
        let gone = set_status left n in
        let applied : apply_update now u m ≡ apply_status now u n left m =
          rw (foreign, here, new, reports) refl in
        let at : Node.get u.node_id (apply_status now u n left m).registry ≡ some gone =
          lookup-insert_self u.node_id gone m.registry.nodes in
        let (registered, t') =
          mark_dead-timer u.node_id (apply_status now u n left m) gone at refl in
        rw applied (running, registered)
