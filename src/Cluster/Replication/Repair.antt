-- ===== src/Cluster/Replication/Repair.antt =====
-- internal/cluster/replication.go: what a node sends after another one has failed.
use distributed_cache_system.Prelude.{
  ℕ, ◌<◌, ◌≡◌, refl, sym, ap, ◌∙◌, true, false, Bool-cases, inl, inr, none, some, List, [], ◌∷◌,
  Str, str_eq, str_eq_iff, str_eq_refl, elem, without, arith, take, if◌then◌else◌, pos, Has,
  Has-append_left, Has-append_right,
}
use distributed_cache_system.Prelude.Assoc
use distributed_cache_system.Prelude.Assoc.{lookup, lookup-delete}
use distributed_cache_system.Prelude.Duration.{milliseconds}
use distributed_cache_system.Cluster.Replication.{
  ReplicationManager, is_primary, get_replica_set, replicate_write, re_replicate_one,
  re_replicate_for_dead_node, handle_node_failure, disconnect_peer, get_peer_conn,
}
use distributed_cache_system.Cluster.Replication.Primary.{is_primary-owners, is_head}
use distributed_cache_system.Cluster.Replication.Writes.{sends, request, sending, replicate_lem}
use distributed_cache_system.Proto.{ReplicateRequest, op_set}
use distributed_cache_system.Ring.{Ring, is_empty}
use distributed_cache_system.Ring.Failover.{get_nodes-take}
use distributed_cache_system.Ring.Owners.{owners}
use distributed_cache_system.Ring.Valid
use distributed_cache_system.Store.{Entry, Store, is_expired}
use distributed_cache_system.Store.Scan.{remaining_ttl}
use distributed_cache_system.Store.Scan.Visited.{visit, view-Has}
use distributed_cache_system.Store.Scan.Listed.{Visit, visits_in, visit_all, for_each-visit_all}
use distributed_cache_system.Store.Valid.{view}

-- A request that carries an entry to a node.
abbrev pub Carries : Str → Str → Str → ℕ → List (Str × ReplicateRequest) → Type 0
Carries n k value ttl pending =
    (req : ReplicateRequest) × Has (n, req) pending
    × (req.key ≡ k)
    × (req.value ≡ value)
    × (req.ttl_ms ≡ milliseconds (pos ttl))
    × (req.op ≡ op_set)

-- A manager after some more sends.
record Extends (rm rm' : ReplicationManager) : Type 0 where
  self : rm'.self_id ≡ rm.self_id
  count : rm'.replica_count ≡ rm.replica_count
  conns : rm'.peer_conns ≡ rm.peer_conns
  kept : (x : Str × ReplicateRequest) → Has x rm.pending → Has x rm'.pending

sends-Has :
    (n : Str) (ns : List Str) (req : ReplicateRequest)
    → elem n ns ≡ true
    → Has (n, req) (sends ns req)
sends-Has n [] req h = ground arith
sends-Has n (k ∷ ns) req h = elim (Bool-cases (str_eq k n)) [
  | inl same ↦ inl (ap (λ x. (x, req)) ((str_eq_iff k n).0 same))
  | inr differ ↦ inr (sends-Has n ns req (ground arith))
]

sending-Extends :
    (ns : List Str) (req : ReplicateRequest) (rm : ReplicationManager)
    → Extends rm (sending ns req rm)
sending-Extends [] req rm = record { self = refl; count = refl; conns = refl; kept = λ x h. h }
sending-Extends (n ∷ ns) req rm = record {
  self = refl;
  count = refl;
  conns = refl;
  kept = λ x h. Has-append_left x rm.pending (sends (n ∷ ns) req) h;
}

pub sending-Has :
    (n : Str) (ns : List Str) (req : ReplicateRequest) (rm : ReplicationManager)
    → elem n ns ≡ true
    → Has (n, req) (sending ns req rm).pending
sending-Has n [] req rm h = ground arith
sending-Has n (k ∷ ns) req rm h =
    Has-append_right (n, req) rm.pending (sends (k ∷ ns) req) (sends-Has n (k ∷ ns) req h)

trans-Extends : (a b c : ReplicationManager) → Extends a b → Extends b c → Extends a c
trans-Extends a b c f g = record {
  self = g.self ∙ f.self;
  count = g.count ∙ f.count;
  conns = g.conns ∙ f.conns;
  kept = λ x h. g.kept x (f.kept x h);
}

module _ {F : Type 0} (r : Ring F) (v : Valid.IsValid r) (filled : is_empty r ≡ false) where
  -- What a node with some name and replica count must send when it visits an entry.
  abbrev Sent : Str → ℕ → Visit → List (Str × ReplicateRequest) → Type 0
  Sent self count x pending =
      is_head self (owners x.0 r.vnodes) ≡ true
      → (n : Str) → elem n (without self (take count (owners x.0 r.vnodes))) ≡ true
      → Carries n x.0 x.1 x.2 pending

  Carries-kept :
      (n k value : Str) (ttl : ℕ) (rm rm' : ReplicationManager)
      → Extends rm rm'
      → Carries n k value ttl rm.pending
      → Carries n k value ttl rm'.pending
  Carries-kept n k value ttl rm rm' x (req, here, a, b, c, d) =
      (req, x.kept (n, req) here, a, b, c, d)

  Sent-kept :
      (rm₀ rm rm' : ReplicationManager) (x : Visit)
      → Extends rm₀ rm
      → Extends rm rm'
      → Sent rm.self_id rm.replica_count x rm'.pending
      → Sent rm₀.self_id rm₀.replica_count x rm'.pending
  Sent-kept rm₀ rm rm' x e₀ e sent h n there = sent (rw e₀.self h) n (rw (e₀.self, e₀.count) there)

  re_replicate_one-Sent :
      (k value : Str) (ttl : ℕ) (rm : ReplicationManager)
      → 0 < rm.replica_count
      → (rm' : ReplicationManager) × (re_replicate_one r k value ttl (some rm) ≡ (some rm', true))
        × Extends rm rm'
        × Sent rm.self_id rm.replica_count (k, value, ttl) rm'.pending
  unfolding re_replicate_one replicate_write get_replica_set
  re_replicate_one-Sent k value ttl rm many =
      elim (Bool-cases (is_head rm.self_id (owners k r.vnodes))) [
        | inr other ↦ (
          rm,
          rw (is_primary-owners r v k rm, other) refl,
          record { self = refl; count = refl; conns = refl; kept = λ x h. h },
          λ h. ground arith,
        )
        | inl primary ↦
            let ttl_ms = milliseconds (pos ttl) in
            let (nodes, found, _, _, sent) =
              replicate_lem r v rm many k value ttl_ms op_set filled in
            let req = request k value ttl_ms op_set rm in
            let ns = without rm.self_id nodes in
            let same : nodes ≡ take rm.replica_count (owners k r.vnodes) =
              ground (arith, found, get_nodes-take r v k rm.replica_count) in
            (
              sending ns req rm,
              rw (is_primary-owners r v k rm, primary, sent) refl,
              sending-Extends ns req rm,
              λ h n there. (
                req,
                sending-Has n ns req rm (ap (λ x. elem n (without rm.self_id x)) same ∙ there),
                refl,
                refl,
                refl,
                refl,
              ),
            )
      ]

  visit_all-Sent :
      (vs : List Visit) (rm : ReplicationManager)
      → 0 < rm.replica_count
      → (rm' : ReplicationManager) × (visit_all (re_replicate_one r) vs (some rm)
          ≡ (some rm', true))
        × Extends rm rm'
        × ((x : Visit) → Has x vs → Sent rm.self_id rm.replica_count x rm'.pending)
  unfolding visit_all
  visit_all-Sent [] rm many = (
    rm,
    refl,
    record { self = refl; count = refl; conns = refl; kept = λ x h. h },
    λ x h. elim h [ ],
  )
  visit_all-Sent ((k, value, ttl) ∷ vs) rm many =
      let (rm₁, one, e₁, first) = re_replicate_one-Sent k value ttl rm many in
      let (rm', all, e₂, others) = visit_all-Sent vs rm₁ (rw e₁.count many) in
      (
        rm',
        rw one all,
        trans-Extends rm rm₁ rm' e₁ e₂,
        λ x h. elim h [
          | inl here ↦
              rw (sym here) (λ h n there. Carries-kept n k value ttl rm₁ rm' e₂ (first h n there))
          | inr there ↦ Sent-kept rm rm₁ rm' x e₁ e₂ (others x there)
        ],
      )

  -- On a valid ring with members, the repair after a failure does not panic, the failed node has no
  -- connection, and for every live entry whose primary is this node, a write of its value with its remaining time
  -- to live is on its way to every other node of the replica set.
  pub handle_node_failure-Carries :
      (now : ℕ) (dead : Str) (s : Store) (rm : ReplicationManager)
      → 0 < rm.replica_count
      → (rm' : ReplicationManager) × (handle_node_failure r now dead s rm ≡ some rm')
        × (rm'.self_id ≡ rm.self_id)
        × (rm'.replica_count ≡ rm.replica_count)
        × (get_peer_conn dead rm' ≡ none)
        × ((k n : Str) (e : Entry) (nodes : List Str)
            → view s k ≡ some e
            → is_expired now e ≡ false
            → is_primary r k rm ≡ some true
            → get_replica_set r k rm ≡ some nodes
            → elem n (without rm.self_id nodes) ≡ true
            → Carries n k e.value (remaining_ttl now e) rm'.pending)
        × (rm'.peer_conns ≡ Assoc.delete dead rm.peer_conns)
  unfolding handle_node_failure re_replicate_for_dead_node disconnect_peer get_replica_set
      get_peer_conn
  handle_node_failure-Carries now dead s rm many =
      let start = disconnect_peer dead rm in
      let (rm', all, e, sent) = visit_all-Sent (visits_in now s.shards) start many in
      (
        rm',
        for_each-visit_all (re_replicate_one r) now s (some start) ∙ ap (λ x. x.0) all,
        e.self,
        e.count,
        ap (lookup dead) e.conns
            ∙ lookup-delete dead dead rm.peer_conns
            ∙ ap (λ b. if b then none else lookup dead rm.peer_conns) (str_eq_refl dead),
        λ k n e nodes held live primary found there.
            sent (visit now k e live) (view-Has now k e live s held)
              (ground (arith, is_primary-owners r v k rm, primary)) n
              (ap (λ x. elem n (without rm.self_id x))
                  (ground (arith, found, get_nodes-take r v k rm.replica_count))
                ∙ there),
        e.conns,
      )
