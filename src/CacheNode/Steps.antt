-- ===== src/CacheNode/Steps.antt =====
-- cmd/cachenode/main.go: a running node whose peers come up and go down.
use distributed_cache_system.Prelude.{
  ℕ, ◌<◌, ◌≡◌, ◌≢◌, refl, ap, ◌∙◌, inl, inr, Bool, true, false, Bool-cases, Option-cases, some, Str,
  str_eq, str_eq_iff, arith,
}
use distributed_cache_system.CacheNode.{
  CacheNode, connect, on_node_added, on_node_removed, add_to_ring, node_up, remove_from_ring,
}
use distributed_cache_system.CacheNode.Failure.{
  member-filled, has_node-remove_node, remove_from_ring-some,
}
use distributed_cache_system.CacheNode.Peers.{
  connected, Changes, has_node-add_node, removed-Changes, absent-Changes, known,
}
use distributed_cache_system.Cluster.Node
use distributed_cache_system.Cluster.Node.{NodeInfo}
use distributed_cache_system.Cluster.Replication.{ReplicationManager, connect_to_peer}
use distributed_cache_system.Cluster.Replication.Repair.{handle_node_failure-Carries}
use distributed_cache_system.Ring.{Ring, has_node, add_node, remove_node}
use distributed_cache_system.Ring.Order.{SortSlice}
use distributed_cache_system.Ring.Valid.{IsValid, add_node-IsValid, remove_node-IsValid}

-- What a running node of some name satisfies.
pub record IsRunning {F : Type 0} (id : Str) (n : CacheNode F) : Type 0 where
  pub named : n.node_id ≡ id
  pub ringed : IsValid n.ring
  pub member : has_node id n.ring ≡ true
  pub replicating : n.replication.self_id ≡ id
  pub replicated : 0 < n.replication.replica_count

unlinked : (c b : Bool) → (c ≡ true → b ≡ true) → b ≡ false → c ≡ false
unlinked true b h off = ground (arith, h refl)
unlinked false b h off = refl

connect_to_peer_lem :
    (dials : Str → Bool) (x addr : Str) (rm : ReplicationManager)
    → ((connect_to_peer dials x addr rm).0.self_id ≡ rm.self_id)
      × ((connect_to_peer dials x addr rm).0.replica_count ≡ rm.replica_count)
unfolding connect_to_peer
connect_to_peer_lem dials x addr rm = (ground arith, ground arith)

module _ {F : Type 0} (so : SortSlice) (dials : Str → Bool) (x id : Str) where
  connect-IsRunning :
      (info : NodeInfo) (n : CacheNode F) → IsRunning id n → IsRunning id (connect dials x info n)
  unfolding connect
  connect-IsRunning info n r = elim (Bool-cases (str_eq x n.node_id)) [
    | inl same ↦ rw same r
    | inr differ ↦
        let (self, count) = connect_to_peer_lem dials x info.grpc_addr n.replication in
        rw differ (record {
          named = r.named;
          ringed = r.ringed;
          member = r.member;
          replicating = self ∙ r.replicating;
          replicated = rw count r.replicated;
        })
  ]

  on_node_added-IsRunning :
      (n : CacheNode F) → IsRunning id n → IsRunning id (on_node_added dials x n)
  unfolding on_node_added
  on_node_added-IsRunning n r = elim (Option-cases (Node.get x n.registry)) [
    | inl unknown ↦ rw (on_node_added, unknown) r
    | inr (info, known) ↦ rw (on_node_added, known) (connect-IsRunning info n r)
  ]

  add_to_ring-IsRunning :
      (n : CacheNode F) → IsRunning id n → IsRunning id (add_to_ring so.sort_slice dials x n)
  unfolding add_to_ring
  add_to_ring-IsRunning n r =
      let added = add_node so.sort_slice x n.ring in
      let r' : IsRunning id (record n { ring = added.0 }) = record {
        named = r.named;
        ringed = add_node-IsValid n.ring r.ringed x so;
        member = ground (arith, has_node-add_node so.sort_slice id x n.ring, r.member);
        replicating = r.replicating;
        replicated = r.replicated;
      } in
      elim (Bool-cases added.1) [
        | inl fresh ↦ rw fresh (on_node_added-IsRunning (record n { ring = added.0 }) r')
        | inr old ↦ rw old r'
      ]

  pub node_up-IsRunning :
      (n : CacheNode F) → IsRunning id n → IsRunning id (node_up so.sort_slice dials x n)
  unfolding node_up
  node_up-IsRunning n r = elim (Option-cases (Node.get x n.registry)) [
    | inl unknown ↦ rw (node_up, unknown) r
    | inr (info, known) ↦
        rw (node_up, known)
          (connect-IsRunning info (add_to_ring so.sort_slice dials x n) (add_to_ring-IsRunning n r))
  ]

  remove_from_ring-absent :
      (now : ℕ) (n : CacheNode F) → has_node x n.ring ≡ false → remove_from_ring now x n ≡ some n
  unfolding remove_from_ring
  remove_from_ring-absent now n absent =
      let kept : remove_node x n.ring ≡ (n.ring, false) = unfold remove_node in rw absent refl in
      ap
        (λ (o : Ring F × Bool). elim o.1 [
          | true ↦ on_node_removed now x (record n { ring = o.0 })
          | false ↦ some (record n { ring = o.0 })
        ])
        kept

  pub remove_from_ring-IsRunning :
      (now : ℕ) (n : CacheNode F)
      → x ≢ id
      → IsRunning id n
      → (connected x n ≡ true → has_node x n.ring ≡ true)
      → (n' : CacheNode F) × (remove_from_ring now x n ≡ some n')
        × IsRunning id n'
        × Changes x (λ b. false) (λ b. false) n n'
  remove_from_ring-IsRunning now n other r linked = elim (Bool-cases (has_node x n.ring)) [
    | inr absent ↦ (
      n,
      remove_from_ring-absent now n absent,
      r,
      absent-Changes x n absent (unlinked (connected x n) (has_node x n.ring) linked absent),
    )
    | inl here ↦
        let ring = (remove_node x n.ring).0 in
        let v = remove_node-IsValid n.ring r.ringed x in
        let still : has_node id ring ≡ true =
          ground (arith, has_node-remove_node x n.ring here id, str_eq_iff x id, r.member) in
        let (rm, run, self, count, _, _, conns) =
          handle_node_failure-Carries ring v (member-filled id ring still) now x n.store
            n.replication r.replicated in
        let n' = record n { ring = ring; replication = rm } in
        (
          n',
          remove_from_ring-some now x n here rm run,
          record {
            named = r.named;
            ringed = v;
            member = still;
            replicating = self ∙ r.replicating;
            replicated = rw count r.replicated;
          },
          removed-Changes x n n' refl here conns,
        )
  ]
