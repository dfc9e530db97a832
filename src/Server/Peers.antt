-- ===== src/Server/Peers.antt =====
-- internal/server/grpc_server.go: the handlers that show or copy the store of a node.
use distributed_cache_system.Prelude.{
  ℕ, ◌-◌, Bool, true, false, Option, some, List, [], ◌∷◌, ◌++◌, Str, if◌then◌else◌, pos,
}
use distributed_cache_system.Prelude.Duration.{milliseconds}
use distributed_cache_system.Proto.{
  KeysRequest, KeysResponse, PingResponse, ReplicateRequest, ReplicateResponse, TransferKeysRequest,
  KeyValuePair, op_set, op_delete, op_other,
}
use distributed_cache_system.Cluster.Replication.{◌>>=◌}
use distributed_cache_system.Server.{CacheServer, Reply, answered, ttl_of}
use distributed_cache_system.Store
use distributed_cache_system.Store.Scan
use distributed_cache_system.Store.Scan.{for_each}

-- The callback of `TransferKeys`; `send` says whether the next pair of the stream, after those
-- sent before, is sent without an error.
unfoldable pub send_pair :
    (List KeyValuePair → KeyValuePair → Bool)
    → Str
    → Str
    → ℕ
    → List KeyValuePair
    → List KeyValuePair × Bool
send_pair send key value ttl sent =
    let kv : KeyValuePair = record { key = key; value = value; ttl_ms = milliseconds (pos ttl) } in
    if send sent kv then (sent ++ kv ∷ [], true) else (sent, false)

module _ {F : Type 0} where
  unfoldable pub keys : ℕ → KeysRequest → CacheServer F → Reply KeysResponse
  keys now req cs = answered (record { keys = Scan.keys now cs.store })

  unfoldable pub ping : ℕ → ℕ → CacheServer F → Reply PingResponse
  ping now later cs = answered (record {
    node_id = cs.node_id;
    uptime_ms = milliseconds (pos (now - cs.start_time));
    keys_count = Scan.len later cs.store;
  })

  unfoldable pub replicate :
      (ℕ → ℕ) → ReplicateRequest → CacheServer F → Option (CacheServer F × Reply ReplicateResponse)
  replicate clock req cs =
      let done : CacheServer F → CacheServer F × Reply ReplicateResponse =
        λ cs'. (cs', answered (record { success = true })) in
      elim req.op [
        | op_set ↦ do
          s ← Store.set (clock 0) (clock 1) req.key req.value (ttl_of req.ttl_ms) cs.store
          some (done (record cs { store = s }))
        | op_delete ↦ do
          (s, existed) ← Store.delete req.key cs.store
          some (done (record cs { store = s }))
        | op_other n ↦ some (done cs)
      ]

  -- The pairs that are sent; the call ends without an error.
  unfoldable pub transfer_keys :
      (List KeyValuePair → KeyValuePair → Bool)
      → ℕ
      → TransferKeysRequest
      → CacheServer F
      → List KeyValuePair × Reply Unit
  transfer_keys send now req cs = (for_each now (send_pair send) cs.store [], answered tt)
