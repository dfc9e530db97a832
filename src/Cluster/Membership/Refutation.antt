-- ===== src/Cluster/Membership/Refutation.antt =====
-- This node's defence against the suspicion of others: its incarnation and the queued updates about
-- it.
use distributed_cache_system.Prelude.{
  ℕ, ◌+◌, ◌%◌, ◌≤◌, ◌<◌, ◌≡◌, sym, ap, ◌∙◌, refl, true, false, Bool-cases, Option-cases, some,
  str_eq, str_eq_iff, str_eq_refl, if◌then◌else◌, ltb, leb, arith, inl, inr, u64_mod, ◌||◌,
}
use distributed_cache_system.Cluster.Node
use distributed_cache_system.Cluster.Node.{
  NodeStatus, alive, suspect, dead, left, other, is_alive, is_suspect, is_dead, is_left, NodeInfo,
  new_node_info, set_status, touch, register,
}
use distributed_cache_system.Cluster.Membership.{
  Membership, MembershipUpdate, emit_event, queue_update, queue_update_locked,
}
use distributed_cache_system.Cluster.Membership.Transitions.{
  write_node, cancel_timer, start_timer, mark_suspect_locked, refute, discover, apply_status,
  apply_alive, apply_update, apply_status_among, apply_update_among,
}
use distributed_cache_system.Cluster.Membership.{enqueue}
use distributed_cache_system.Cluster.Membership.Updates.{self_id-apply_update}
use distributed_cache_system.Cluster.Membership.Queue.{queued, newer, enqueue-queued}

-- No update about this node is queued with a higher incarnation than it has.
abbrev pub OwnQueued : Membership → Type 0
OwnQueued m =
    (v : MembershipUpdate)
    → queued m.self_id m.update_queue ≡ some v
    → v.incarnation ≤ m.incarnation

-- A report that this node is suspect or dead, below the largest incarnation, raises its own
-- incarnation above the reported one and leaves an alive update with that incarnation queued, if no
-- queued update about it has a higher incarnation than it has.
pub refutes :
    (now : ℕ) (u : MembershipUpdate) (m : Membership)
    → OwnQueued m
    → u.node_id ≡ m.self_id
    → (is_suspect u.status || is_dead u.status) ≡ true
    → u.incarnation + 1 < u64_mod
    → (v : MembershipUpdate) × (queued m.self_id (apply_update now u m).update_queue ≡ some v)
      × (v.status ≡ alive)
      × (u.incarnation < v.incarnation)
      × (v.incarnation ≡ (apply_update now u m).incarnation)
      × (m.incarnation ≤ v.incarnation)
unfolding apply_update_among refute queue_update_locked
refutes now u m own same accused room =
    let mine : str_eq u.node_id m.self_id ≡ true = (str_eq_iff u.node_id m.self_id).1 same in
    let i =
      if leb m.incarnation u.incarnation then (u.incarnation + 1) % u64_mod else m.incarnation in
    let v : MembershipUpdate = record {
      node_id = m.self_id;
      grpc_addr = m.self_info.grpc_addr;
      gossip_addr = m.self_info.gossip_addr;
      http_addr = m.self_info.http_addr;
      status = alive;
      incarnation = i;
    } in
    let above : (u.incarnation < i) × (m.incarnation ≤ i) = ground arith in
    let first : newer (queued m.self_id m.update_queue) v ≡ v =
      elim (Option-cases (queued m.self_id m.update_queue)) [
        | inl absent ↦ rw absent refl
        | inr (w, present) ↦ rw present (ground (arith, own w present, above))
      ] in
    (
      v,
      rw (mine, accused, enqueue-queued v m.update_queue m.self_id, str_eq_refl m.self_id, first)
          refl,
      refl,
      above.0,
      rw (mine, accused) refl,
      above.1,
    )

module _ (now : ℕ) (u : MembershipUpdate) (m : Membership) where
  update_queue-apply_status :
      (n : NodeInfo) (s : NodeStatus)
      → ((apply_status now u n s m).update_queue ≡ m.update_queue)
        × ((apply_status now u n s m).self_id ≡ m.self_id)
        × ((apply_status now u n s m).incarnation ≡ m.incarnation)
  unfolding apply_status_among apply_alive mark_suspect_locked write_node cancel_timer start_timer
      emit_event
  update_queue-apply_status n alive = ground arith
  update_queue-apply_status n suspect = ground arith
  update_queue-apply_status n dead = ground arith
  update_queue-apply_status n left = (refl, refl, refl)
  update_queue-apply_status n (other k) = (refl, refl, refl)

  kept-OwnQueued :
      (x : Membership)
      → OwnQueued m
      → (x.update_queue ≡ m.update_queue)
        × (x.self_id ≡ m.self_id)
        × (x.incarnation ≡ m.incarnation)
      → OwnQueued x
  kept-OwnQueued x own (q, i, n) v h = rw n (own v (rw (sym q, sym i) h))

  discover-OwnQueued :
      str_eq u.node_id m.self_id ≡ false
      → is_alive u.status ≡ true
      → OwnQueued m
      → OwnQueued (discover now u m)
  unfolding discover queue_update emit_event
  discover-OwnQueued foreign known own =
      let same : queued m.self_id (enqueue u m.update_queue) ≡ queued m.self_id m.update_queue =
        rw (enqueue-queued u m.update_queue m.self_id, foreign) refl in
      rw known (λ v h. own v (sym same ∙ h))

  -- An update below the largest incarnation keeps it so that no update about this node is queued
  -- with a higher incarnation than it has.
  pub apply_update-OwnQueued :
      u.incarnation + 1 < u64_mod → OwnQueued m → OwnQueued (apply_update now u m)
  unfolding apply_update_among discover
  apply_update-OwnQueued room own = elim (Bool-cases (str_eq u.node_id m.self_id)) [
    | inl mine ↦ elim (Bool-cases (is_suspect u.status || is_dead u.status)) [
      | inl accused ↦ λ v h.
          let (w, at, _, _, level, _) =
            refutes now u m own ((str_eq_iff u.node_id m.self_id).0 mine) accused room in
          let h' : queued m.self_id (apply_update now u m).update_queue ≡ some v =
            ap (λ id. queued id (apply_update now u m).update_queue)
              (sym (self_id-apply_update now u m))
            ∙ h in
          let same : v ≡ w = ground (arith, h', at) in rw same (omega (arith, level))
      | inr praised ↦
          let e : apply_update now u m ≡ m = rw (apply_update_among, mine, praised) refl in rw e own
    ]
    | inr foreign ↦ elim (Option-cases (Node.get u.node_id m.registry)) [
      | inl absent ↦ elim (Bool-cases (is_alive u.status)) [
        | inr unknown ↦
            let e : apply_update now u m ≡ m =
              rw (apply_update_among, foreign, absent, discover, unknown) refl in
            rw e own
        | inl known ↦
            let e : apply_update now u m ≡ discover now u m =
              rw (apply_update_among, foreign, absent) refl in
            rw e (discover-OwnQueued foreign known own)
      ]
      | inr (n, present) ↦ elim (Bool-cases (ltb u.incarnation n.incarnation)) [
        | inl old ↦
            let e : apply_update now u m ≡ m =
              rw (apply_update_among, foreign, present, old) refl in
            rw e own
        | inr recent ↦
            let e : apply_update now u m ≡ apply_status now u n u.status m =
              rw (apply_update_among, foreign, present, recent) refl in
            rw e (
              kept-OwnQueued (apply_status now u n u.status m) own
                (update_queue-apply_status n u.status))
      ]
    ]
  ]
