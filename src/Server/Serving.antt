-- ===== src/Server/Serving.antt =====
-- internal/server/grpc_server.go: what a server keeps from one request to the next.
pub mod Steps
pub mod Renewed
use mathlib.Core.Path.{subst}
use distributed_cache_system.Prelude.{
  ℕ, suc, ◌<◌, ◌≡◌, refl, ap, ◌∙◌, inl, inr, Bool, true, false, Bool-cases, Option-cases, Option,
  none, some, List, [], ◌∷◌, Str, elem, take, str_eq, without, arith, if◌then◌else◌, ℤ,
}
use distributed_cache_system.Prelude.Assoc.{Map}
use distributed_cache_system.Cluster.Replication.{
  ReplicationManager, ◌>>=◌, is_primary, is_replica, get_primary, get_peer_conn, replicate,
}
use distributed_cache_system.Cluster.Replication.Primary.{
  is_head, head, is_primary-owners, get_primary-owners, is_primary-filled,
}
use distributed_cache_system.Cluster.Replication.Writes.{request, sending, replicate_lem}
use distributed_cache_system.Mitigator.{Mitigator}
use distributed_cache_system.Proto.{ReplicateRequest, Operation}
use distributed_cache_system.Ring.{Ring}
use distributed_cache_system.Ring.Failover.{get_nodes-take}
use distributed_cache_system.Ring.Owners.{owners}
use distributed_cache_system.Server.{
  CacheServer, Reply, proxy_conn, proxy_or, with_load, if_primary,
}
use distributed_cache_system.Server.Loads.{acts, relabel}
use distributed_cache_system.Server.Ready.{IsServing, Watched, Watched-some, less_room}
use distributed_cache_system.Server.Routing.{passed_on, handled_here}
use distributed_cache_system.Server.Writes.{is_primary-loads, replicate-loads}
use distributed_cache_system.Store.{Store}
use distributed_cache_system.Store.Valid.{IsValid}

-- A replication manager, if there is one, wants at least one replica for a key.
abbrev pub Copying : Option ReplicationManager → Type 0
Copying none = Unit
Copying (some rm) = 0 < rm.replica_count

pub sending-Copying :
    (ns : List Str) (req : ReplicateRequest) (rm : ReplicationManager)
    → 0 < rm.replica_count
    → Copying (some (sending ns req rm))
sending-Copying [] req rm many = many
sending-Copying (n ∷ ns) req rm many = many

pub Copying-some :
    (o : Option ReplicationManager) (rm : ReplicationManager)
    → Copying o
    → o ≡ some rm
    → 0 < rm.replica_count
Copying-some none rm c h = ground arith
Copying-some (some rm') rm c h = subst Copying h c

-- A server that can count `n` more accesses and keeps at least one copy of a key.
pub record IsRunning {F : Type 0} (n : ℕ) (cs : CacheServer F) : Type 0 where
  pub serving : IsServing n cs
  pub copying : Copying cs.replication_mgr

module _ {F : Type 0} (n : ℕ) (cs : CacheServer F) (run : IsRunning (suc n) cs) where
  pub acts-IsRunning :
      (s : Store) (rm : Option ReplicationManager) (m : Option Mitigator)
      → IsValid s
      → Copying rm
      → ((w : Mitigator) → m ≡ some w → Watched n (some w))
      → IsRunning n (acts cs s rm m)
  acts-IsRunning s rm m v c w = record {
    serving = record {
      stored = v;
      ringed = run.serving.ringed;
      counted = run.serving.counted;
      watched = w;
    };
    copying = c;
  }

  -- A request needs room for one access at most.
  pub IsRunning-less_room : (w : Mitigator) → cs.hot_key_mitigator ≡ some w → Watched n (some w)
  IsRunning-less_room w h = less_room n w.shard_count w.detector.sketch (run.serving.watched w h)

  pub is_replica-some :
      (key : Str) (rm : ReplicationManager) → (b : Bool) × (is_replica cs.ring key rm ≡ some b)
  unfolding is_replica
  is_replica-some key rm = (
    elem rm.self_id (take rm.replica_count (owners key cs.ring.vnodes)),
    rw (get_nodes-take cs.ring run.serving.ringed key rm.replica_count) refl,
  )

  -- On a valid ring the node a request goes to is found without a panic.
  proxy_conn-some :
      (serves : Ring F → Str → ReplicationManager → Option Bool) (key : Str)
      → ((rm : ReplicationManager) → (b : Bool) × (serves cs.ring key rm ≡ some b))
      → (o : Option Str) × (proxy_conn serves key cs ≡ some o)
  unfolding proxy_conn
  proxy_conn-some serves key h = elim (Option-cases cs.replication_mgr) [
    | inl absent ↦ (none, rw absent refl)
    | inr (rm, managed) ↦
        let (mine, found) = h rm in
        elim (Bool-cases mine) [
          | inl here ↦ (none, rw (managed, found, ◌>>=◌, here) refl)
          | inr other ↦ (
            elim (head (owners key cs.ring.vnodes)) [
              | none ↦ none
              | some p ↦ if str_eq p cs.node_id then none else get_peer_conn p rm
            ],
            (rw (managed, found, ◌>>=◌, other, get_primary-owners cs.ring run.serving.ringed key rm)
                refl),
          )
        ]
  ]

  -- What the primary starts, if this node is the primary.
  pub started :
      (key value : Str) (ttl_ms : ℤ) (op : Operation)
      → (o : Option ReplicationManager) × Copying o
        × ((loads : Map ℕ) (s : Store) (m : Option Mitigator)
            → if_primary key
                (λ rm. replicate (record cs.ring { loads = loads }) key value ttl_ms op rm)
                (acts (relabel loads cs) s cs.replication_mgr m)
              ≡ some (acts (relabel loads cs) s o m))
  unfolding if_primary
  started key value ttl_ms op = elim (Option-cases cs.replication_mgr) [
    | inl absent ↦ (none, tt, λ loads s m. rw absent refl)
    | inr (rm, managed) ↦
        let many = Copying-some cs.replication_mgr rm run.copying managed in
        let found = is_primary-owners cs.ring run.serving.ringed key rm in
        elim (Bool-cases (is_head rm.self_id (owners key cs.ring.vnodes))) [
          | inr other ↦ (
            some rm,
            many,
            λ loads s m.
                rw (managed, if_primary, is_primary-loads cs.ring loads key rm ∙ found, other)
                  (ap (λ o. some (acts (relabel loads cs) s o m)) managed),
          )
          | inl first ↦
              let primary = found ∙ ap (λ b. some b) first in
              let (nodes, _, _, _, sent) =
                replicate_lem cs.ring run.serving.ringed rm many key value ttl_ms op
                  (is_primary-filled cs.ring run.serving.ringed key rm primary) in
              (
                some (sending (without rm.self_id nodes) (request key value ttl_ms op rm) rm),
                sending-Copying (without rm.self_id nodes) (request key value ttl_ms op rm) rm many,
                λ loads s m.
                    rw
                      (
                        managed,
                        if_primary,
                        is_primary-loads cs.ring loads key rm ∙ primary,
                        replicate-loads cs.ring loads key rm value ttl_ms op ∙ sent,
                      )
                      refl,
              )
        ]
  ]

  module _ {A : Type 0} (serves : Ring F → Str → ReplicationManager → Option Bool) (key : Str)
      (call : Str → Reply A) (body : CacheServer F → Option (CacheServer F × Reply A))
      (same : (loads : Map ℕ) → proxy_conn serves key (relabel loads cs) ≡ proxy_conn serves key cs)
      (total : (rm : ReplicationManager) → (b : Bool) × (serves cs.ring key rm ≡ some b)) where
    -- A request is passed on, or handled by a body that leaves the ring alone.
    pub handled_lem :
        (s : Store) (rm : Option ReplicationManager) (m : Option Mitigator) (a : Reply A)
        → IsRunning n (acts cs s rm m)
        → ((loads : Map ℕ) → body (relabel loads cs) ≡ some (acts (relabel loads cs) s rm m, a))
        → (cs' : CacheServer F) × (reply : Reply A) × (with_load (proxy_or serves key call body) cs
            ≡ some (cs', reply))
          × IsRunning n cs'
          × (cs'.ring ≡ cs.ring)
    handled_lem s rm m a after h =
        let (o, goes) = proxy_conn-some serves key total in
        elim (Option-cases o) [
          | inl here ↦ (
            acts cs s rm m,
            a,
            handled_here cs run.serving.counted serves key call body same s rm m a
                (goes ∙ ap (λ x. some x) here) h,
            after,
            refl,
          )
          | inr (conn, there) ↦ (
            cs,
            call conn,
            passed_on cs run.serving.counted serves key call body same conn
                (goes ∙ ap (λ x. some x) there),
            acts-IsRunning cs.store cs.replication_mgr cs.hot_key_mitigator run.serving.stored
                run.copying IsRunning-less_room,
            refl,
          )
        ]
