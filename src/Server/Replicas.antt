-- ===== src/Server/Replicas.antt =====
-- internal/server/grpc_server.go: a write at the primary of a key, and what the replicas of the key
-- answer.
use distributed_cache_system.Prelude.{
  ℕ, ◌<◌, ◌≡◌, refl, sym, ap, ◌∙◌, Bool, true, Option, none, some, List, Str, str_eq_refl, elem,
  without, arith, if◌then◌else◌, Has,
}
use distributed_cache_system.Cluster.Replication.{
  ReplicationManager, is_primary, is_replica, get_replica_set,
}
use distributed_cache_system.Cluster.Replication.Repair.{sending-Has}
use distributed_cache_system.Cluster.Replication.Writes.{request, sending}
use distributed_cache_system.Mitigator.{Mitigator}
use distributed_cache_system.Proto.{
  GetRequest, GetResponse, SetRequest, SetResponse, ReplicateRequest, op_set,
}
use distributed_cache_system.Server.{CacheServer, Reply, answered, ttl_of, proxy_conn, get, set}
use distributed_cache_system.Server.Peers.{replicate}
use distributed_cache_system.Server.Copies.{written, replicate-Updates}
use distributed_cache_system.Server.Loads.{acts}
use distributed_cache_system.Server.Reads.{answer, get-answer}
use distributed_cache_system.Server.Ready.{IsReady}
use distributed_cache_system.Server.Writes.{set-primary}
use distributed_cache_system.Store.{Store, expiry}
use distributed_cache_system.Store.Methods.{Updates}
use distributed_cache_system.Store.Reads.{value_of, not_over, purged-set}
use distributed_cache_system.Store.Valid.{IsValid, view}

written_set :
    (clock : ℕ → ℕ) (req : ReplicateRequest) (s s' : Store)
    → Updates s req.key (written (clock 0) (clock 1) req (view s req.key)) s'
    → req.op ≡ op_set
    → view s' req.key
      ≡ some (record {
        value = req.value;
        expires_at = expiry (clock 1) (ttl_of req.ttl_ms);
        created_at = clock 0;
      })
written_set clock req s s' u is_set = rw (str_eq_refl req.key, is_set) at (u req.key)

module _ {F : Type 0} where
  -- A server whose store alone has changed.
  restored :
      (cs : CacheServer F) (s : Store)
      → IsReady cs
      → IsValid s
      → IsReady (acts cs s cs.replication_mgr cs.hot_key_mitigator)
  restored cs s ready v = record {
    stored = v;
    ringed = ready.ringed;
    counted = ready.counted;
    watched = ready.watched;
  }

  serves-acts :
      (cs : CacheServer F) (s : Store) (key : Str)
      → proxy_conn is_replica key (acts cs s cs.replication_mgr cs.hot_key_mitigator)
        ≡ proxy_conn is_replica key cs
  unfolding proxy_conn
  serves-acts cs s key = refl

  -- A replica that has applied a write of a value answers a Get with it while its time to live is
  -- not over, and says that there is none from then on.
  replicate-get :
      (b : CacheServer F) (req : ReplicateRequest) (clock clock' : ℕ → ℕ)
      (invoke : Str → GetRequest → Reply GetResponse)
      → IsReady b
      → req.op ≡ op_set
      → proxy_conn is_replica req.key b ≡ some none
      → (b' b'' : CacheServer F) × (hot : Bool) × (replicate clock req b
          ≡ some (b', answered (record { success = true })))
        × (get invoke clock' (record { key = req.key }) b'
            ≡ some (
              b'',
              answer req.key
                  (if not_over (ttl_of req.ttl_ms) (clock 1) (clock' 0)
                    then some req.value
                    else none)
                  hot,
            ))
  replicate-get b req clock clock' invoke ready is_set local =
      let (s, applied, v, u) = replicate-Updates clock req b ready.stored in
      let b' = acts b s b.replication_mgr b.hot_key_mitigator in
      let (s', m, hot, _, read) =
        get-answer b' (restored b s ready v) invoke clock' (record { key = req.key })
          (serves-acts b s req.key ∙ local) in
      let here = written_set clock req b.store s u is_set in
      (
        b',
        acts b' s' b'.replication_mgr m,
        hot,
        applied,
        rw (here, purged-set (ttl_of req.ttl_ms) req.value (clock 0) (clock 1) (clock' 0)) at read,
      )

  -- A Set at the primary of a key, on a ready server with at least one replica for a key, succeeds
  -- and puts a request on its way to any given other node of the replica set; when a ready server
  -- that serves the key has applied it, a Get there answers with the value until its time to live,
  -- counted from the copy, is over, and from then on that there is none.
  pub set-replicate-get :
      (a b : CacheServer F) (rm : ReplicationManager) (n : Str) (nodes : List Str)
      (put : Str → SetRequest → Reply SetResponse) (read : Str → GetRequest → Reply GetResponse)
      (clock clock' clock'' : ℕ → ℕ) (req : SetRequest)
      → IsReady a
      → IsReady b
      → a.replication_mgr ≡ some rm
      → is_primary a.ring req.key rm ≡ some true
      → 0 < rm.replica_count
      → get_replica_set a.ring req.key rm ≡ some nodes
      → elem n (without rm.self_id nodes) ≡ true
      → proxy_conn is_replica req.key b ≡ some none
      → (s : Store) × (m : Option Mitigator) × (rm' : ReplicationManager)
        × (copy : ReplicateRequest) × (b' b'' : CacheServer F) × (hot : Bool) × (set put clock req a
            ≡ some (acts a s (some rm') m, answered (record { success = true })))
        × Has (n, copy) rm'.pending
        × (replicate clock' copy b ≡ some (b', answered (record { success = true })))
        × (get read clock'' (record { key = req.key }) b'
            ≡ some (
              b'',
              answer req.key
                  (if not_over (ttl_of req.ttl_ms) (clock' 1) (clock'' 0)
                    then some req.value
                    else none)
                  hot,
            ))
  set-replicate-get a b rm n nodes put read clock clock' clock'' req ra rb managed primary many
        found there local =
      let (nodes', s, m, found', _, _, done) =
        set-primary a ra rm put clock req managed primary many in
      let copy = request req.key req.value req.ttl_ms op_set rm in
      let same : nodes ≡ nodes' = ground (arith, found, found') in
      let (b', b'', hot, applied, answers) =
        replicate-get b copy clock' clock'' read rb refl local in
      (
        s,
        m,
        sending (without rm.self_id nodes') copy rm,
        copy,
        b',
        b'',
        hot,
        done,
        sending-Has n (without rm.self_id nodes') copy rm
            (ap (λ x. elem n (without rm.self_id x)) (sym same) ∙ there),
        applied,
        answers,
      )

  -- A write that is delivered to a server with a valid store leaves its value under its key,
  -- whatever request was applied before it, also one about the same key with a larger sequence
  -- number.
  pub replicate-last :
      (cs : CacheServer F) (clock clock' : ℕ → ℕ) (first last : ReplicateRequest)
      → IsValid cs.store
      → last.op ≡ op_set
      → (s s' : Store) × (replicate clock first cs
          ≡ some (
            acts cs s cs.replication_mgr cs.hot_key_mitigator,
            answered (record { success = true }),
          ))
        × (replicate clock' last (acts cs s cs.replication_mgr cs.hot_key_mitigator)
            ≡ some (
              acts cs s' cs.replication_mgr cs.hot_key_mitigator,
              answered (record { success = true }),
            ))
        × (value_of (view s' last.key) ≡ some last.value)
  replicate-last cs clock clock' first last v is_set =
      let (s, one, v₁, _) = replicate-Updates clock first cs v in
      let cs₁ = acts cs s cs.replication_mgr cs.hot_key_mitigator in
      let (s', two, _, u) = replicate-Updates clock' last cs₁ v₁ in
      (s, s', one, two, ap value_of (written_set clock' last s s' u is_set))
