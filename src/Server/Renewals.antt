-- ===== src/Server/Renewals.antt =====
-- internal/server/grpc_server.go: Expire on the primary of a key.
use distributed_cache_system.Prelude.{
  ℕ, ◌<◌, ◌≡◌, refl, sym, ap, ◌∙◌, inl, inr, Bool, true, false, Bool-cases, Option-cases, Option,
  none, some, List, Str, str_eq_refl, without, arith, if◌then◌else◌,
}
use distributed_cache_system.Prelude.Assoc.{Map}
use distributed_cache_system.Cluster.Replication.{
  ReplicationManager, ◌>>=◌, is_primary, get_replica_set, replicate, replicate_write,
}
use distributed_cache_system.Cluster.Replication.Primary.{is_primary-filled}
use distributed_cache_system.Cluster.Replication.Writes.{request, sending, replicate_lem}
use distributed_cache_system.Proto.{ExpireRequest, ExpireResponse, op_set}
use distributed_cache_system.Server.{
  CacheServer, Reply, answered, ttl_of, propagate_expire, expire_here, expire,
}
use distributed_cache_system.Server.Loads.{acts, relabel}
use distributed_cache_system.Server.Ready.{IsReady}
use distributed_cache_system.Server.Routing.{handled_here, proxy_conn-primary}
use distributed_cache_system.Server.Writes.{primary_local, is_primary-loads, replicate-loads}
use distributed_cache_system.Store.{Store, Entry, expiry}
use distributed_cache_system.Store.Methods.{existed, purged, renewed, expire-Leaves}
use distributed_cache_system.Store.Reads.{get-Leaves, value_of}
use distributed_cache_system.Store.Valid.{IsValid, view}

module _ {F : Type 0} (cs : CacheServer F) (ready : IsReady cs) (rm : ReplicationManager)
    (clock : ℕ → ℕ) (req : ExpireRequest) where
  -- The entry with its new expiry time, and what the second read finds of it.
  abbrev pub renewal : Option Entry
  renewal = renewed (clock 0) (expiry (clock 1) (ttl_of req.ttl_ms)) (view cs.store req.key)

  abbrev pub live : Bool
  live = existed (purged (clock 0) (view cs.store req.key))

  -- The replication after a value has been read again.
  abbrev pub renewing : List Str → Option Str → ReplicationManager
  renewing nodes none = rm
  renewing nodes (some value) =
      sending (without rm.self_id nodes) (request req.key value req.ttl_ms op_set rm) rm

  module _ (managed : cs.replication_mgr ≡ some rm)
      (primary : is_primary cs.ring req.key rm ≡ some true) (many : 0 < rm.replica_count)
      (nodes : List Str) (found : get_replica_set cs.ring req.key rm ≡ some nodes) where
    sent_for :
        (value : Str)
        → replicate cs.ring req.key value req.ttl_ms op_set rm ≡ some (renewing nodes (some value))
    unfolding get_replica_set
    sent_for value =
        let filled = is_primary-filled cs.ring ready.ringed req.key rm primary in
        let (nodes', found', _, _, sent) =
          replicate_lem cs.ring ready.ringed rm many req.key value req.ttl_ms op_set filled in
        let same : nodes' ≡ nodes = ground (arith, found, found') in
        sent ∙ ap (λ l. some (renewing l (some value))) same

    pub propagated :
        (s : Store) (v : IsValid s)
        → (s' : Store) × ((loads : Map ℕ)
            → propagate_expire clock req
                (acts (relabel loads cs) s cs.replication_mgr cs.hot_key_mitigator)
              ≡ some (
                  acts
                    (relabel loads cs)
                    s'
                    (some (renewing nodes (value_of (purged (clock 2) (view s req.key)))))
                    cs.hot_key_mitigator))
          × IsValid s'
    unfolding propagate_expire replicate_write
    propagated s v =
        let (s', read, l) = get-Leaves s req.key v (λ x. x) (clock 2) (clock 3) v in
        elim (Option-cases (value_of (purged (clock 2) (view s req.key)))) [
          | inl absent ↦ (
            s',
            λ loads.
                rw
                  (
                    managed,
                    propagate_expire,
                    is_primary-loads cs.ring loads req.key rm ∙ primary,
                    read,
                    ◌>>=◌,
                    absent,
                  )
                  (ap (λ m. some (acts (relabel loads cs) s' m cs.hot_key_mitigator)) managed),
            l.valid,
          )
          | inr (value, here) ↦ (
            s',
            λ loads.
                rw
                  (
                    managed,
                    propagate_expire,
                    is_primary-loads cs.ring loads req.key rm ∙ primary,
                    read,
                    ◌>>=◌,
                    here,
                    replicate-loads cs.ring loads req.key rm value req.ttl_ms op_set
                        ∙ sent_for value,
                  )
                  refl,
            l.valid,
          )
        ]

  -- Expire on a ready server that is the primary of the key, with at least one replica for a key,
  -- does not panic and says whether the store had a live entry for the key; if it had one, and a
  -- second read still finds it under its new expiry time, a write of its value with the new time to
  -- live is started to each other node of the replica set; otherwise nothing is; the store stays
  -- valid, and the ring with its loads stays as it was.
  pub expire-primary :
      (invoke : Str → ExpireRequest → Reply ExpireResponse)
      → cs.replication_mgr ≡ some rm
      → is_primary cs.ring req.key rm ≡ some true
      → 0 < rm.replica_count
      → (nodes : List Str) × (s : Store) × (get_replica_set cs.ring req.key rm ≡ some nodes)
        × IsValid s
        × (expire invoke clock req cs
            ≡ some (
              acts cs s
                  (some
                    (renewing nodes (if live then value_of (purged (clock 2) renewal) else none)))
                  cs.hot_key_mitigator,
              answered (record { found = live }),
            ))
  unfolding expire expire_here
  expire-primary invoke managed primary many =
      let filled = is_primary-filled cs.ring ready.ringed req.key rm primary in
      let (nodes, found, _, _, _) =
        replicate_lem cs.ring ready.ringed rm many req.key req.key req.ttl_ms op_set filled in
      let (s, expired, l) =
        expire-Leaves cs.store req.key ready.stored (clock 0) (clock 1) (ttl_of req.ttl_ms) in
      let (s', sent, v') = propagated managed primary many nodes found s l.valid in
      let here : view s req.key ≡ renewal =
        l.updates req.key
        ∙ ap (λ b. if b then renewal else view cs.store req.key) (str_eq_refl req.key) in
      let handled =
        handled_here cs ready.counted is_primary req.key (λ c. invoke c req) (expire_here clock req)
          (λ loads. proxy_conn-primary loads req.key cs) in
      let local = primary_local cs ready rm req.key managed primary many in
      let second : Option Entry → Option Str = λ e. value_of (purged (clock 2) e) in
      let ends : Store → Bool → Option Str → Option (CacheServer F × Reply ExpireResponse) =
        λ s b o. some (
          acts cs s (some (renewing nodes o)) cs.hot_key_mitigator,
          answered (record { found = b }),
        ) in
      let branch : Store → Bool → Option (CacheServer F × Reply ExpireResponse) =
        λ s b. ends s b (if b then second renewal else none) in
      elim (Bool-cases live) [
        | inr dead ↦ (
          nodes,
          s,
          found,
          l.valid,
          handled s (some rm) cs.hot_key_mitigator (answered (record { found = false })) local
                (λ loads. rw (expired ∙ ap (λ b. some (s, b)) dead) (
                  ap
                    (λ m. some (
                      acts (relabel loads cs) s m cs.hot_key_mitigator,
                      answered (record { found = false }),
                    ))
                    managed))
              ∙ ap (branch s) (sym dead),
        )
        | inl alive ↦ (
          nodes,
          s',
          found,
          v',
          handled s' (some (renewing nodes (second (view s req.key)))) cs.hot_key_mitigator
                (answered (record { found = true })) local
                (λ loads. rw (expired ∙ ap (λ b. some (s, b)) alive, ◌>>=◌, sent loads) refl)
              ∙ ap (λ e. ends s' true (second e)) here
              ∙ ap (branch s') (sym alive),
        )
      ]
