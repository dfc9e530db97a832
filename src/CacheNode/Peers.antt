-- ===== src/CacheNode/Peers.antt =====
-- cmd/cachenode/main.go: what an event does to the members of the ring and to the connections.
use distributed_cache_system.Prelude.{
  ◌≡◌, ◌≢◌, refl, ap, ◌∙◌, inl, inr, Bool, true, false, ◌&&◌, ◌||◌, Bool-cases, none, some, List,
  [], ◌∷◌, Str, str_eq, str_eq_iff, arith, if◌then◌else◌,
}
use distributed_cache_system.Prelude.Assoc
use distributed_cache_system.Prelude.Assoc.{has, lookup-insert, lookup-delete}
use distributed_cache_system.CacheNode.{
  CacheNode, Delivery, connect, on_node_added, add_to_ring, node_up,
}
use distributed_cache_system.CacheNode.Failure.{has_node-remove_node}
use distributed_cache_system.Cluster.Membership.{
  MembershipEventType, event_join, event_alive, event_suspect, event_dead, event_left,
}
use distributed_cache_system.Cluster.Node
use distributed_cache_system.Cluster.Node.{NodeInfo}
use distributed_cache_system.Cluster.Replication.{connect_to_peer}
use distributed_cache_system.Ring.{Ring, VNode, has_node, add_node, remove_node}

abbrev pub connected : {F : Type 0} → Str → CacheNode F → Bool
connected q n = has q n.replication.peer_conns

-- From one node to the other, `member` and `link` happen to the membership and the connection of `x`,
-- and nothing to those of others.
abbrev pub Changes :
    {F : Type 0} → Str → (Bool → Bool) → (Bool → Bool) → CacheNode F → CacheNode F → Type 0
Changes x member link n n' =
    (q : Str)
    → (has_node q n'.ring ≡ (if str_eq x q then member (has_node q n.ring) else has_node q n.ring))
      × (connected q n' ≡ (if str_eq x q then link (connected q n) else connected q n))

pub has_node-add_node :
    {F : Type 0} (sort_slice : List VNode → List VNode) (q x : Str) (r : Ring F)
    → has_node q (add_node sort_slice x r).0 ≡ (if str_eq x q then true else has_node q r)
unfolding has_node add_node
has_node-add_node sort_slice q x r = ground (arith, lookup-insert x q true r.nodes, str_eq_iff x q)

module _ {F : Type 0} (dials : Str → Bool) (x : Str) where
  connect-Changes :
      (info : NodeInfo) (n : CacheNode F)
      → x ≢ n.node_id
      → Changes x (λ b. b) (λ b. b || dials info.grpc_addr) n (connect dials x info n)
  unfolding connect connect_to_peer
  connect-Changes info n other q =
      let apart : str_eq x n.node_id ≡ false = ground (arith, str_eq_iff x n.node_id) in
      let added = lookup-insert x q info.grpc_addr n.replication.peer_conns in
      (ground (arith, apart), ground (arith, apart, added, str_eq_iff x q))

  node_id-connect :
      (info : NodeInfo) (n : CacheNode F) → (connect dials x info n).node_id ≡ n.node_id
  unfolding connect
  node_id-connect info n = ground arith

  add_to_ring-Changes :
      (sort_slice : List VNode → List VNode) (n : CacheNode F) (info : NodeInfo)
      → x ≢ n.node_id
      → Node.get x n.registry ≡ some info
      → (fresh : Bool) × Changes x
          (λ b. true)
          (λ b. b || (fresh && dials info.grpc_addr))
          n
          (add_to_ring sort_slice dials x n)
        × ((add_to_ring sort_slice dials x n).node_id ≡ n.node_id)
  unfolding add_to_ring on_node_added
  add_to_ring-Changes sort_slice n info other known =
      let added = add_node sort_slice x n.ring in
      let n₁ = record n { ring = added.0 } in
      let in_ring = λ (q : Str). has_node-add_node sort_slice q x n.ring in
      elim (Bool-cases added.1) [
        | inl fresh ↦
            let once = connect-Changes info n₁ other in
            (
              true,
              rw (fresh, on_node_added, known)
                  (λ q. (ground (arith, (once q).0, in_ring q), (once q).1)),
              rw (fresh, on_node_added, known) (node_id-connect info n₁),
            )
        | inr old ↦ (false, rw old (λ q. (in_ring q, ground arith)), rw old refl)
      ]

  pub node_up-Changes :
      (sort_slice : List VNode → List VNode) (n : CacheNode F) (info : NodeInfo)
      → x ≢ n.node_id
      → Node.get x n.registry ≡ some info
      → Changes x (λ b. true) (λ b. b || dials info.grpc_addr) n (node_up sort_slice dials x n)
  unfolding node_up
  node_up-Changes sort_slice n info other known =
      let n₁ = add_to_ring sort_slice dials x n in
      let (fresh, first, same) = add_to_ring-Changes sort_slice n info other known in
      let second = connect-Changes info n₁ (λ e. other (e ∙ same)) in
      rw (node_up, known)
        (λ q.
          (ground (arith, (first q).0, (second q).0), ground (arith, (first q).1, (second q).1)))

-- What a removal does to the connections, if only members are connected to.
pub removed-Changes :
    {F : Type 0} (x : Str) (n n' : CacheNode F)
    → n'.ring ≡ (remove_node x n.ring).0
    → has_node x n.ring ≡ true
    → n'.replication.peer_conns ≡ Assoc.delete x n.replication.peer_conns
    → Changes x (λ b. false) (λ b. false) n n'
removed-Changes x n n' ring member conns q = (
  ap (has_node q) ring ∙ has_node-remove_node x n.ring member q,
  ap (λ m. has q m) conns ∙ ground (arith, lookup-delete x q n.replication.peer_conns),
)

pub absent-Changes :
    {F : Type 0} (x : Str) (n : CacheNode F)
    → has_node x n.ring ≡ false
    → connected x n ≡ false
    → Changes x (λ b. false) (λ b. false) n n
absent-Changes x n absent alone q = (ground (arith, str_eq_iff x q), ground (arith, str_eq_iff x q))

pub same-Changes : {F : Type 0} (x : Str) (n : CacheNode F) → Changes x (λ b. b) (λ b. b) n n
same-Changes x n q = (ground arith, ground arith)

-- What is known of the node of an event when it arrives.
abbrev pub known : Delivery → Bool
known d = elim (Node.get d.event.node_id d.registry) [ none ↦ false | some info ↦ true ]

abbrev pub reachable : (Str → Bool) → Delivery → Bool
reachable dials d = elim (Node.get d.event.node_id d.registry) [
  | none ↦ false
  | some info ↦ dials info.grpc_addr
]

-- What an event should do about its node: on if it joins or is alive again, and can be, off if it is
-- dead or has left.
abbrev pub switched : MembershipEventType → Bool → Bool → Bool
switched event_join can b = b || can
switched event_alive can b = b || can
switched event_suspect can b = b
switched event_dead can b = false
switched event_left can b = false

-- A history of events, read for one node: whether it is a member, and whether it is connected to.
abbrev pub member_after : Str → List Delivery → Bool → Bool
member_after q [] b = b
member_after q (d ∷ ds) b =
    member_after q ds (if str_eq d.event.node_id q then switched d.event.type (known d) b else b)

abbrev pub link_after : (Str → Bool) → Str → List Delivery → Bool → Bool
link_after dials q [] b = b
link_after dials q (d ∷ ds) b =
    link_after dials q ds
      (if str_eq d.event.node_id q then switched d.event.type (reachable dials d) b else b)
