-- ===== src/Server/Serving/Renewed.antt =====
-- internal/server/grpc_server.go: Expire keeps a server running.
use distributed_cache_system.Prelude.{
  ℕ, suc, ◌<◌, ◌≡◌, refl, ap, ◌∙◌, inl, inr, Bool-cases, Option-cases, without, Option, none, some,
  false, List, Str, true,
}
use distributed_cache_system.Cluster.Replication.{
  ReplicationManager, ◌>>=◌, get_replica_set, is_primary,
}
use distributed_cache_system.Cluster.Replication.Primary.{is_head, is_primary-owners}
use distributed_cache_system.Proto.{ExpireRequest, ExpireResponse, op_set}
use distributed_cache_system.Server.{
  CacheServer, Reply, answered, ttl_of, set, expire, expire_here, propagate_expire,
}
use distributed_cache_system.Server.Ready.{IsServing-IsReady}
use distributed_cache_system.Server.Routing.{proxy_conn-primary}
use distributed_cache_system.Server.Serving.{
  Copying, Copying-some, sending-Copying, IsRunning, acts-IsRunning, IsRunning-less_room,
  handled_lem,
}
use distributed_cache_system.Server.Writes.{is_primary-loads}
use distributed_cache_system.Server.Renewals.{renewing, propagated}
use distributed_cache_system.Server.Loads.{acts, relabel}
use distributed_cache_system.Ring.Failover.{get_nodes_lem}
use distributed_cache_system.Ring.Owners.{owners}
use distributed_cache_system.Cluster.Replication.Writes.{request}
use distributed_cache_system.Prelude.Assoc.{Map}
use distributed_cache_system.Store.{Store}
use distributed_cache_system.Store.Methods.{existed, purged, expire-Leaves}
use distributed_cache_system.Store.Reads.{value_of}
use distributed_cache_system.Store.Valid.{IsValid, view}

module _ {F : Type 0} (n : ℕ) (cs : CacheServer F) (run : IsRunning (suc n) cs) where
  renewing-Copying :
      (rm : ReplicationManager) (clock : ℕ → ℕ) (req : ExpireRequest) (nodes : List Str)
      (o : Option Str)
      → 0 < rm.replica_count
      → Copying (some (renewing cs (IsServing-IsReady n cs run.serving) rm clock req nodes o))
  renewing-Copying rm clock req nodes none many = many
  renewing-Copying rm clock req nodes (some value) many =
      sending-Copying (without rm.self_id nodes) (request req.key value req.ttl_ms op_set rm) rm
        many

  -- What is started when the time to live has been renewed here.
  renewed_here :
      (clock : ℕ → ℕ) (req : ExpireRequest) (s : Store)
      → IsValid s
      → (s' : Store) × (o : Option ReplicationManager) × IsValid s'
        × Copying o
        × ((loads : Map ℕ)
            → propagate_expire clock req
                (acts (relabel loads cs) s cs.replication_mgr cs.hot_key_mitigator)
              ≡ some (acts (relabel loads cs) s' o cs.hot_key_mitigator))
  unfolding propagate_expire get_replica_set
  renewed_here clock req s v = elim (Option-cases cs.replication_mgr) [
    | inl absent ↦ (
      s,
      cs.replication_mgr,
      v,
      run.copying,
      λ loads.
          rw (absent, propagate_expire)
            (ap (λ o. some (acts (relabel loads cs) s o cs.hot_key_mitigator)) absent),
    )
    | inr (rm, managed) ↦
        let many = Copying-some cs.replication_mgr rm run.copying managed in
        let found = is_primary-owners cs.ring run.serving.ringed req.key rm in
        elim (Bool-cases (is_head rm.self_id (owners req.key cs.ring.vnodes))) [
          | inr other ↦ (
            s,
            some rm,
            v,
            many,
            λ loads.
                rw
                  (
                    managed,
                    propagate_expire,
                    is_primary-loads cs.ring loads req.key rm ∙ found,
                    other,
                  )
                  (ap (λ o. some (acts (relabel loads cs) s o cs.hot_key_mitigator)) managed),
          )
          | inl first ↦
              let (nodes, set, _, _, _) =
                get_nodes_lem cs.ring run.serving.ringed req.key rm.replica_count in
              let (s', sent, v') =
                propagated cs (IsServing-IsReady n cs run.serving) rm clock req managed
                  (found ∙ ap (λ b. some b) first) many nodes set s v in
              (
                s',
                some (
                    renewing cs (IsServing-IsReady n cs run.serving) rm clock req nodes
                      (value_of (purged (clock 2) (view s req.key)))),
                v',
                renewing-Copying rm clock req nodes _ many,
                sent,
              )
        ]
  ]

  pub expire-IsRunning :
      (invoke : Str → ExpireRequest → Reply ExpireResponse) (clock : ℕ → ℕ) (req : ExpireRequest)
      → (cs' : CacheServer F) × (reply : Reply ExpireResponse) × (expire invoke clock req cs
          ≡ some (cs', reply))
        × IsRunning n cs'
        × (cs'.ring ≡ cs.ring)
  unfolding expire expire_here
  expire-IsRunning invoke clock req =
      let (s, renewed, l) =
        expire-Leaves cs.store req.key run.serving.stored (clock 0) (clock 1) (ttl_of req.ttl_ms) in
      let (s', o, v', c, sent) = renewed_here clock req s l.valid in
      let handled =
        handled_lem n cs run is_primary req.key (λ c. invoke c req) (expire_here clock req)
          (λ loads. proxy_conn-primary loads req.key cs)
          (λ rm. (_, is_primary-owners cs.ring run.serving.ringed req.key rm)) in
      let kept = IsRunning-less_room n cs run in
      elim (Bool-cases (existed (purged (clock 0) (view cs.store req.key)))) [
        | inr dead ↦
            handled s cs.replication_mgr cs.hot_key_mitigator (answered (record { found = false }))
              (acts-IsRunning n cs run s cs.replication_mgr cs.hot_key_mitigator l.valid run.copying
                kept)
              (λ loads. rw (renewed ∙ ap (λ b. some (s, b)) dead) refl)
        | inl alive ↦
            handled s' o cs.hot_key_mitigator (answered (record { found = true }))
              (acts-IsRunning n cs run s' o cs.hot_key_mitigator v' c kept)
              (λ loads. rw (renewed ∙ ap (λ b. some (s, b)) alive, ◌>>=◌, sent loads) refl)
      ]
