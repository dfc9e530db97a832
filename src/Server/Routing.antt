-- ===== src/Server/Routing.antt =====
-- internal/server/grpc_server.go: which requests a node handles, and which ones it passes on.
use distributed_cache_system.Prelude.{
  ℕ, ◌≡◌, ◌≢◌, refl, ap, ◌∙◌, Bool, false, Option, none, some, Str, str_eq, str_eq_iff, arith,
}
use distributed_cache_system.Prelude.Assoc.{Map}
use distributed_cache_system.Proto.{
  GetRequest, GetResponse, SetRequest, SetResponse, DeleteRequest, DeleteResponse, ExpireRequest,
  ExpireResponse,
}
use distributed_cache_system.Cluster.Replication.{
  ReplicationManager, is_primary, is_replica, get_primary, get_peer_conn,
}
use distributed_cache_system.Mitigator.{Mitigator}
use distributed_cache_system.Ring.{Ring, get_nodes}
use distributed_cache_system.Server.{
  CacheServer, Reply, proxy_conn, proxy_or, with_load, get, set, delete, expire, get_here, set_here,
  delete_here, expire_here,
}
use distributed_cache_system.Server.Loads.{acts, relabel, IsCounted, with_load-acts}
use distributed_cache_system.Store.{Store}

-- The loads of the ring do not matter for the owners of a key.
module _ {F : Type 0} (loads : Map ℕ) (key : Str) (cs : CacheServer F) where
  pub proxy_conn-primary :
      proxy_conn is_primary key (relabel loads cs) ≡ proxy_conn is_primary key cs
  unfolding proxy_conn is_primary get_primary get_nodes
  proxy_conn-primary = refl

  pub proxy_conn-replica :
      proxy_conn is_replica key (relabel loads cs) ≡ proxy_conn is_replica key cs
  unfolding proxy_conn is_replica get_primary get_nodes
  proxy_conn-replica = refl

module _ {F : Type 0} (cs : CacheServer F) (counted : IsCounted cs) where
  module _ {A : Type 0} (serves : Ring F → Str → ReplicationManager → Option Bool) (key : Str)
      (call : Str → Reply A) (body : CacheServer F → Option (CacheServer F × Reply A))
      (same : (loads : Map ℕ)
        → proxy_conn serves key (relabel loads cs) ≡ proxy_conn serves key cs) where
    -- A request that is passed on.
    pub passed_on :
        (conn : Str)
        → proxy_conn serves key cs ≡ some (some conn)
        → with_load (proxy_or serves key call body) cs ≡ some (cs, call conn)
    unfolding proxy_or
    passed_on conn found =
        with_load-acts cs counted (proxy_or serves key call body) cs.store cs.replication_mgr
          cs.hot_key_mitigator (call conn) (λ loads. rw (same loads ∙ found) refl)

    -- A request that is handled here, by a body that leaves the ring alone.
    pub handled_here :
        (s : Store) (rm : Option ReplicationManager) (m : Option Mitigator) (a : Reply A)
        → proxy_conn serves key cs ≡ some none
        → ((loads : Map ℕ) → body (relabel loads cs) ≡ some (acts (relabel loads cs) s rm m, a))
        → with_load (proxy_or serves key call body) cs ≡ some (acts cs s rm m, a)
    unfolding proxy_or
    handled_here s rm m a found h =
        with_load-acts cs counted (proxy_or serves key call body) s rm m a
          (λ loads. rw (same loads ∙ found) (h loads))

  -- A request for a key whose primary is another node with a connection, and that this node does
  -- not serve, gets exactly the answer of that node, an error included, and leaves this server as
  -- it was: a Get if this node is not in the replica set, a Set, Delete or Expire if it is not the
  -- primary.
  pub get-passed_on :
      (rm : ReplicationManager) (key primary conn : Str) (clock : ℕ → ℕ)
      → cs.replication_mgr ≡ some rm
      → get_primary cs.ring key rm ≡ some (some primary)
      → primary ≢ cs.node_id
      → get_peer_conn primary rm ≡ some conn
      → (is_replica cs.ring key rm ≡ some false
          → (invoke : Str → GetRequest → Reply GetResponse)
          → get invoke clock (record { key = key }) cs
            ≡ some (cs, invoke conn (record { key = key })))
        × (is_primary cs.ring key rm ≡ some false
            → ((invoke : Str → SetRequest → Reply SetResponse) (req : SetRequest)
                → req.key ≡ key
                → set invoke clock req cs ≡ some (cs, invoke conn req))
              × ((invoke : Str → DeleteRequest → Reply DeleteResponse) (req : DeleteRequest)
                  → req.key ≡ key
                  → delete invoke req cs ≡ some (cs, invoke conn req))
              × ((invoke : Str → ExpireRequest → Reply ExpireResponse) (req : ExpireRequest)
                  → req.key ≡ key
                  → expire invoke clock req cs ≡ some (cs, invoke conn req)))
  unfolding get set delete expire
  get-passed_on rm key primary conn clock managed first other connected =
      let elsewhere : str_eq primary cs.node_id ≡ false =
        ground (arith, str_eq_iff primary cs.node_id) in
      let found : (serves : Ring F → Str → ReplicationManager → Option Bool)
          → serves cs.ring key rm ≡ some false
          → proxy_conn serves key cs ≡ some (some conn) =
        λ serves h.
          unfold proxy_conn in rw (managed, h, first, elsewhere) (ap (λ x. some x) connected) in
      (
        λ h invoke.
            passed_on is_replica key (λ c. invoke c (record { key = key }))
              (get_here clock (record { key = key })) (λ loads. proxy_conn-replica loads key cs)
              conn (found is_replica h),
        λ h. (
          λ invoke req same.
              passed_on is_primary req.key (λ c. invoke c req) (set_here clock req)
                (λ loads. proxy_conn-primary loads req.key cs) conn
                (ap (λ k. proxy_conn is_primary k cs) same ∙ found is_primary h),
          λ invoke req same.
              passed_on is_primary req.key (λ c. invoke c req) (delete_here req)
                (λ loads. proxy_conn-primary loads req.key cs) conn
                (ap (λ k. proxy_conn is_primary k cs) same ∙ found is_primary h),
          λ invoke req same.
              passed_on is_primary req.key (λ c. invoke c req) (expire_here clock req)
                (λ loads. proxy_conn-primary loads req.key cs) conn
                (ap (λ k. proxy_conn is_primary k cs) same ∙ found is_primary h),
        ),
      )
