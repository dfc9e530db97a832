-- ===== src/Server.antt =====
-- internal/server/grpc_server.go: the handlers of the cache service.
-- The store, the ring and the replication manager are objects that the handlers share; the manager
-- and the mitigator work on the server's own ring and store, as in cmd/cachenode/main.go. `clock i`
-- is the value of the i-th call of the clock in a handler. `invoke` is what a call through a
-- connection answers. `none` is a run-time panic. Listening and stopping are left out.
pub mod Peers
pub mod Loads
pub mod Routing
pub mod Ready
pub mod Reads
pub mod Writes
pub mod Renewals
pub mod Copies
pub mod Replicas
pub mod Transfer
pub mod Serving
pub mod Requests
use distributed_cache_system.Prelude.{
  ℕ, ◌+◌, ◌-◌, Bool, true, false, Option, none, some, List, [], ◌∷◌, ◌++◌, Str, str_eq,
  if◌then◌else◌, ℤ, pos,
}
use distributed_cache_system.Prelude.Duration.{is_positive, from_milliseconds}
use distributed_cache_system.Proto.{
  GetRequest, GetResponse, SetRequest, SetResponse, DeleteRequest, DeleteResponse, ExpireRequest,
  ExpireResponse,
}
use distributed_cache_system.Cluster.Replication.{
  ReplicationManager, ◌>>=◌, is_primary, is_replica, get_primary, get_peer_conn, replicate_write,
  replicate_delete,
}
use distributed_cache_system.Mitigator.{
  Mitigator, check_and_mitigate, is_mitigated, write_to_shards,
}
use distributed_cache_system.Ring.{Ring, increment_load, decrement_load}
use distributed_cache_system.Store
use distributed_cache_system.Store.{Store}

-- How a call ends: with a response, or with an error.
pub data Reply (A : Type 0) : Type 0 where
  answered : A → Reply A
  failed : Reply A

pub record CacheServer (F : Type 0) : Type 0 where
  pub node_id : Str
  pub store : Store
  pub ring : Ring F
  -- `cs.ring != nil`.
  pub counts_loads : Bool
  pub replication_mgr : Option ReplicationManager
  pub hot_key_mitigator : Option Mitigator
  pub start_time : ℕ

unfoldable pub new_cache_server :
    {F : Type 0}
    → Str
    → Store
    → Ring F
    → Bool
    → Option ReplicationManager
    → Option Mitigator
    → ℕ
    → CacheServer F
new_cache_server node_id s ring counts_loads rep_mgr mitigator now = record {
  node_id = node_id;
  store = s;
  ring = ring;
  counts_loads = counts_loads;
  replication_mgr = rep_mgr;
  hot_key_mitigator = mitigator;
  start_time = now;
}

-- `if ttlMs > 0 { ttl = time.Duration(ttlMs) * time.Millisecond }`.
unfoldable pub ttl_of : ℤ → ℤ
ttl_of ttl_ms = if is_positive ttl_ms then from_milliseconds ttl_ms else pos 0

module _ {F : Type 0} where
  unfoldable pub begin_call : CacheServer F → CacheServer F
  begin_call cs =
      if cs.counts_loads then record cs { ring = increment_load cs.node_id cs.ring } else cs

  unfoldable pub end_call : CacheServer F → CacheServer F
  end_call cs =
      if cs.counts_loads then record cs { ring = decrement_load cs.node_id cs.ring } else cs

  -- The load of the node is raised while a handler runs.
  unfoldable pub with_load :
      {A : Type 0}
      → (CacheServer F → Option (CacheServer F × A))
      → CacheServer F
      → Option (CacheServer F × A)
  with_load body cs = do (cs', a) ← body (begin_call cs); some (end_call cs', a)

  -- The connection to the primary, if the request is passed on: this node does not serve the key.
  unfoldable pub proxy_conn :
      (Ring F → Str → ReplicationManager → Option Bool) → Str → CacheServer F → Option (Option Str)
  proxy_conn serves key cs = elim cs.replication_mgr [
    | none ↦ some none
    | some rm ↦ do
      mine ← serves cs.ring key rm
      elim mine [
        | true ↦ some none
        | false ↦ do
          primary ← get_primary cs.ring key rm
          some (elim primary [
            | none ↦ none
            | some p ↦ if str_eq p cs.node_id then none else get_peer_conn p rm
          ])
      ]
  ]

  -- Pass a request on, or handle it here.
  unfoldable pub proxy_or :
      {A : Type 0}
      → (Ring F → Str → ReplicationManager → Option Bool)
      → Str
      → (Str → Reply A)
      → (CacheServer F → Option (CacheServer F × Reply A))
      → CacheServer F
      → Option (CacheServer F × Reply A)
  proxy_or serves key call body cs = do
    conn ← proxy_conn serves key cs
    elim conn [ none ↦ body cs | some c ↦ some (cs, call c) ]

  -- What a handler starts if this node is the primary of the key.
  unfoldable pub if_primary :
      Str
      → (ReplicationManager → Option ReplicationManager)
      → CacheServer F
      → Option (CacheServer F)
  if_primary key f cs = elim cs.replication_mgr [
    | none ↦ some cs
    | some rm ↦ do
      mine ← is_primary cs.ring key rm
      elim mine [
        | false ↦ some cs
        | true ↦ do rm' ← f rm; some (record cs { replication_mgr = some rm' })
      ]
  ]

  unfoldable pub check_hot : (ℕ → ℕ) → ℕ → ℕ → Str → CacheServer F → Option (CacheServer F × Bool)
  check_hot clock now later key cs = elim cs.hot_key_mitigator [
    | none ↦ some (cs, false)
    | some m ↦ do
      (m', hot) ← check_and_mitigate clock now later key (record m { store = cs.store })
      some (record cs { store = m'.store; hot_key_mitigator = some m' }, hot)
  ]

  unfoldable pub get_here :
      (ℕ → ℕ) → GetRequest → CacheServer F → Option (CacheServer F × Reply GetResponse)
  get_here clock req cs = do
    (s, read) ← Store.get (λ x. x) (clock 0) (clock 1) req.key cs.store
    elim read [
      | none ↦ some (
        record cs { store = s },
        answered
            (record { key = req.key; value = []; found = false; ttl_ms = pos 0; is_hot = false }),
      )
      | some value ↦ do
        (cs', hot) ←
            check_hot (λ i. clock (i + 4)) (clock 2) (clock 3) req.key (record cs { store = s })
        some (
          cs',
          answered
              (record { key = req.key; value = value; found = true; ttl_ms = pos 0; is_hot = hot }),
        )
    ]

  unfoldable pub get :
      (Str → GetRequest → Reply GetResponse)
      → (ℕ → ℕ)
      → GetRequest
      → CacheServer F
      → Option (CacheServer F × Reply GetResponse)
  get invoke clock req =
      with_load (proxy_or is_replica req.key (λ conn. invoke conn req) (get_here clock req))

  -- The write, to the copies too if the key is mitigated.
  unfoldable pub write_here : (ℕ → ℕ) → Str → Str → ℤ → CacheServer F → Option (CacheServer F)
  write_here clock key value ttl cs =
      let plain = (do
        s ← Store.set (clock 0) (clock 1) key value ttl cs.store
        some (record cs { store = s })) in
      elim cs.hot_key_mitigator [
        | none ↦ plain
        | some m ↦ elim (is_mitigated key m) [
          | false ↦ plain
          | true ↦ do
            m' ←
                write_to_shards (λ i. clock (i + 2)) (clock 0) (clock 1) key value ttl
                  (record m { store = cs.store })
            some (record cs { store = m'.store; hot_key_mitigator = some m' })
        ]
      ]

  unfoldable pub set_here :
      (ℕ → ℕ) → SetRequest → CacheServer F → Option (CacheServer F × Reply SetResponse)
  set_here clock req cs = do
    cs₁ ← write_here clock req.key req.value (ttl_of req.ttl_ms) cs
    cs₂ ← if_primary req.key (λ rm. replicate_write cs₁.ring req.key req.value req.ttl_ms rm) cs₁
    some (cs₂, answered (record { success = true }))

  unfoldable pub set :
      (Str → SetRequest → Reply SetResponse)
      → (ℕ → ℕ)
      → SetRequest
      → CacheServer F
      → Option (CacheServer F × Reply SetResponse)
  set invoke clock req =
      with_load (proxy_or is_primary req.key (λ conn. invoke conn req) (set_here clock req))

  unfoldable pub delete_here :
      DeleteRequest → CacheServer F → Option (CacheServer F × Reply DeleteResponse)
  delete_here req cs = do
    (s, existed) ← Store.delete req.key cs.store
    let cs₁ = record cs { store = s }
    cs₂ ← if_primary req.key (λ rm. replicate_delete cs₁.ring req.key rm) cs₁
    some (cs₂, answered (record { existed = existed }))

  unfoldable pub delete :
      (Str → DeleteRequest → Reply DeleteResponse)
      → DeleteRequest
      → CacheServer F
      → Option (CacheServer F × Reply DeleteResponse)
  delete invoke req =
      with_load (proxy_or is_primary req.key (λ conn. invoke conn req) (delete_here req))

  -- The new time to live is sent with the value as it is read again.
  unfoldable pub propagate_expire : (ℕ → ℕ) → ExpireRequest → CacheServer F → Option (CacheServer F)
  propagate_expire clock req cs = elim cs.replication_mgr [
    | none ↦ some cs
    | some rm ↦ do
      mine ← is_primary cs.ring req.key rm
      elim mine [
        | false ↦ some cs
        | true ↦ do
          (s, read) ← Store.get (λ x. x) (clock 2) (clock 3) req.key cs.store
          elim read [
            | none ↦ some (record cs { store = s })
            | some value ↦ do
              rm' ← replicate_write cs.ring req.key value req.ttl_ms rm
              some (record cs { store = s; replication_mgr = some rm' })
          ]
      ]
  ]

  unfoldable pub expire_here :
      (ℕ → ℕ) → ExpireRequest → CacheServer F → Option (CacheServer F × Reply ExpireResponse)
  expire_here clock req cs = do
    (s, found) ← Store.expire (clock 0) (clock 1) req.key (ttl_of req.ttl_ms) cs.store
    let cs₁ = record cs { store = s }
    elim found [
      | false ↦ some (cs₁, answered (record { found = false }))
      | true ↦ do
        cs₂ ← propagate_expire clock req cs₁
        some (cs₂, answered (record { found = true }))
    ]

  unfoldable pub expire :
      (Str → ExpireRequest → Reply ExpireResponse)
      → (ℕ → ℕ)
      → ExpireRequest
      → CacheServer F
      → Option (CacheServer F × Reply ExpireResponse)
  expire invoke clock req =
      with_load (proxy_or is_primary req.key (λ conn. invoke conn req) (expire_here clock req))
