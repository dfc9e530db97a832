-- ===== src/Cluster/Membership/Updates.antt =====
-- What an update does to the registry: an independent description, and the order by incarnation.
use distributed_cache_system.Prelude.{
  ℕ, ◌≤◌, ◌≡◌, refl, sym, ap, ◌∙◌, true, Bool-cases, Option-cases, Option, none, some, Str, str_eq,
  str_eq_iff, str_eq_refl, if◌then◌else◌, ltb, arith, inl, inr,
}
use distributed_cache_system.Prelude.Assoc.{Map, lookup, lookup-insert}
use distributed_cache_system.Cluster.Node
use distributed_cache_system.Cluster.Node.{
  NodeStatus, alive, suspect, dead, left, other, is_alive, is_suspect, is_dead, NodeInfo,
  new_node_info, set_status, touch, register,
}
use distributed_cache_system.Cluster.Membership.{
  Membership, MembershipUpdate, emit_event, queue_update, queue_update_locked,
}
use distributed_cache_system.Cluster.Membership.Transitions.{
  write_node, cancel_timer, start_timer, mark_suspect_locked, refute, discover, apply_status,
  apply_alive, apply_update, apply_status_among, apply_update_among,
}

-- What an update about a registered node makes of it, by the status it reports.
abbrev pub reported : ℕ → ℕ → NodeInfo → NodeStatus → NodeInfo
reported now incarnation n alive =
    if is_alive n.status
    then n
    else record n { status = alive; incarnation = incarnation; last_seen = now }
reported now incarnation n suspect = if is_alive n.status then record n { status = suspect } else n
reported now incarnation n dead = record n { status = dead }
reported now incarnation n left = record n { status = left }
reported now incarnation n (other k) = n

abbrev newcomer : ℕ → MembershipUpdate → NodeInfo
newcomer now u = record {
  id = u.node_id;
  grpc_addr = u.grpc_addr;
  gossip_addr = u.gossip_addr;
  http_addr = u.http_addr;
  status = alive;
  incarnation = u.incarnation;
  joined_at = now;
  last_seen = now;
}

-- What an update makes of the registry's entry for its node: an older one is ignored, and only a
-- report that the node is alive makes it known.
abbrev pub merged : ℕ → MembershipUpdate → Option NodeInfo → Option NodeInfo
merged now u none = if is_alive u.status then some (newcomer now u) else none
merged now u (some n) =
    some (if ltb u.incarnation n.incarnation then n else reported now u.incarnation n u.status)

same_entry :
    (k id : Str) (m : Map NodeInfo) (o : Option NodeInfo)
    → lookup k m ≡ o
    → lookup id m ≡ (if str_eq k id then o else lookup id m)
same_entry k id m o at = elim (Bool-cases (str_eq k id)) [
  | inl same ↦ rw (same, sym ((str_eq_iff k id).0 same)) at
  | inr differ ↦ rw differ refl
]

abbrev with_status : NodeInfo → NodeStatus → NodeInfo
with_status n s = record n { status = s }

is_dead-dead : (s : NodeStatus) → is_dead s ≡ true → s ≡ dead
is_dead-dead alive h = ground arith
is_dead-dead suspect h = ground arith
is_dead-dead dead h = refl
is_dead-dead left h = ground arith
is_dead-dead (other n) h = ground arith

reported-newer :
    (now i : ℕ) (n : NodeInfo) (s : NodeStatus)
    → n.incarnation ≤ i
    → n.incarnation ≤ (reported now i n s).incarnation
reported-newer now i n alive h = ground arith
reported-newer now i n suspect h = ground arith
reported-newer now i n dead h = omega arith
reported-newer now i n left h = omega arith
reported-newer now i n (other k) h = omega arith

reported_again :
    (now later i : ℕ) (n : NodeInfo) (s : NodeStatus)
    → reported later i (reported now i n s) s ≡ reported now i n s
reported_again now later i n alive = ground arith
reported_again now later i n suspect = ground arith
reported_again now later i n dead = refl
reported_again now later i n left = refl
reported_again now later i n (other k) = refl

reported_known :
    (later i : ℕ) (n : NodeInfo) (s : NodeStatus)
    → is_alive s ≡ true
    → is_alive n.status ≡ true
    → reported later i n s ≡ n
reported_known later i n alive h known = rw known refl
reported_known later i n suspect h known = ground arith
reported_known later i n dead h known = ground arith
reported_known later i n left h known = ground arith
reported_known later i n (other k) h known = ground arith

module _ (now : ℕ) (u : MembershipUpdate) (m : Membership) where
  apply_status-get :
      (n : NodeInfo) (s : NodeStatus) (id : Str)
      → lookup u.node_id m.registry.nodes ≡ some n
      → lookup id (apply_status now u n s m).registry.nodes ≡ (
          if str_eq u.node_id id
          then some (reported now u.incarnation n s)
          else lookup id m.registry.nodes)
  unfolding apply_status_among apply_alive mark_suspect_locked write_node cancel_timer start_timer
      emit_event set_status touch
  apply_status-get n alive id at = elim (Bool-cases (is_alive n.status)) [
    | inl same ↦ rw same (same_entry u.node_id id m.registry.nodes (some n) at)
    | inr new ↦ rw (new, lookup-insert) refl
  ]
  apply_status-get n suspect id at = elim (Bool-cases (is_alive n.status)) [
    | inl trusted ↦ rw (trusted, lookup-insert) refl
    | inr doubted ↦ rw doubted (same_entry u.node_id id m.registry.nodes (some n) at)
  ]
  apply_status-get n dead id at = elim (Bool-cases (is_dead n.status)) [
    | inl same ↦
        let kept : n ≡ record n { status = dead } =
          ap (with_status n) (is_dead-dead n.status same) in
        rw same (
          same_entry u.node_id id m.registry.nodes (some (record n { status = dead }))
            (at ∙ ap (λ (x : NodeInfo). some x) kept))
    | inr new ↦ rw (new, lookup-insert) refl
  ]
  apply_status-get n left id at = rw lookup-insert refl
  apply_status-get n (other k) id at = same_entry u.node_id id m.registry.nodes (some n) at

  discover-get :
      (id : Str)
      → lookup u.node_id m.registry.nodes ≡ none
      → lookup id (discover now u m).registry.nodes
        ≡ (if str_eq u.node_id id then merged now u none else lookup id m.registry.nodes)
  unfolding discover emit_event queue_update register new_node_info
  discover-get id at = elim (Bool-cases (is_alive u.status)) [
    | inl known ↦ rw (known, lookup-insert) refl
    | inr unknown ↦ rw unknown (same_entry u.node_id id m.registry.nodes none at)
  ]

  -- An update changes the registry entry of its node alone, as the table of reports says, and never
  -- the entry of this node itself.
  pub apply_update-merged :
      (id : Str)
      → Node.get id (apply_update now u m).registry ≡ (
          if str_eq u.node_id m.self_id
          then Node.get id m.registry
          else if str_eq u.node_id id
          then merged now u (Node.get u.node_id m.registry)
          else Node.get id m.registry)
  unfolding apply_update_among refute queue_update_locked Node.get
  apply_update-merged id = elim (Bool-cases (str_eq u.node_id m.self_id)) [
    | inl own ↦ ground arith
    | inr foreign ↦ elim (Option-cases (lookup u.node_id m.registry.nodes)) [
      | inl absent ↦ rw (foreign, absent) (discover-get id absent)
      | inr (n, present) ↦ elim (Bool-cases (ltb u.incarnation n.incarnation)) [
        | inl old ↦
            rw (foreign, present, old) (same_entry u.node_id id m.registry.nodes (some n) present)
        | inr recent ↦ rw (foreign, present, recent) (apply_status-get n u.status id present)
      ]
    ]
  ]

  self_id-apply_status :
      (n : NodeInfo) (s : NodeStatus) → (apply_status now u n s m).self_id ≡ m.self_id
  unfolding apply_status_among apply_alive mark_suspect_locked write_node cancel_timer start_timer
      emit_event
  self_id-apply_status n alive = ground arith
  self_id-apply_status n suspect = ground arith
  self_id-apply_status n dead = ground arith
  self_id-apply_status n left = refl
  self_id-apply_status n (other k) = refl

  pub self_id-apply_update : (apply_update now u m).self_id ≡ m.self_id
  unfolding apply_update_among refute queue_update_locked discover queue_update emit_event
  self_id-apply_update = elim (Option-cases (Node.get u.node_id m.registry)) [
    | inl absent ↦ ground (arith, absent)
    | inr (n, present) ↦ ground (arith, present, self_id-apply_status n u.status)
  ]

  -- An update lowers no incarnation of a registered node and takes no node out of the registry.
  pub apply_update-newer :
      (id : Str) (n : NodeInfo)
      → Node.get id m.registry ≡ some n
      → (n' : NodeInfo) × (Node.get id (apply_update now u m).registry ≡ some n')
        × (n.incarnation ≤ n'.incarnation)
  apply_update-newer id n here =
      rw (apply_update-merged id) (elim (Bool-cases (str_eq u.node_id m.self_id)) [
        | inl own ↦ (n, rw own here, omega arith)
        | inr foreign ↦ elim (Bool-cases (str_eq u.node_id id)) [
          | inr differ ↦ (n, rw (foreign, differ) here, omega arith)
          | inl same ↦
              let found : Node.get u.node_id m.registry ≡ some n =
                rw ((str_eq_iff u.node_id id).0 same) here in
              elim (Bool-cases (ltb u.incarnation n.incarnation)) [
                | inl old ↦ (n, rw (foreign, same, found, old) refl, omega arith)
                | inr recent ↦ (
                  reported now u.incarnation n u.status,
                  rw (foreign, same, found, recent) refl,
                  reported-newer now u.incarnation n u.status (ground arith),
                )
              ]
        ]
      ])

module _ (u : MembershipUpdate) where
  merged_again :
      (now later : ℕ) (o : Option NodeInfo) → merged later u (merged now u o) ≡ merged now u o
  merged_again now later none = elim (Bool-cases (is_alive u.status)) [
    | inl known ↦
        let kept = reported_known later u.incarnation (newcomer now u) u.status known refl in
        rw known (ground (arith, kept))
    | inr unknown ↦ rw unknown (rw unknown refl)
  ]
  merged_again now later (some n) = elim (Bool-cases (ltb u.incarnation n.incarnation)) [
    | inl old ↦ rw old (rw old refl)
    | inr recent ↦ ground (arith, recent, reported_again now later u.incarnation n u.status)
  ]

  -- An update that arrives again changes nothing in the registry.
  apply_update_again :
      (now later : ℕ) (m : Membership) (id : Str)
      → Node.get id (apply_update later u (apply_update now u m)).registry
        ≡ Node.get id (apply_update now u m).registry
  apply_update_again now later m id =
      let m' = apply_update now u m in
      let first = apply_update-merged now u m id in
      let second = apply_update-merged later u m' id in
      ground (
        arith,
        first,
        second,
        apply_update-merged now u m u.node_id,
        self_id-apply_update now u m,
        str_eq_refl u.node_id,
        merged_again now later (Node.get u.node_id m.registry),
      )
