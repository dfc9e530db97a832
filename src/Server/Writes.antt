-- ===== src/Server/Writes.antt =====
-- internal/server/grpc_server.go: Set, Delete and Expire on the primary of a key.
use distributed_cache_system.Prelude.{
  ℕ, ◌+◌, ◌<◌, ◌≡◌, refl, ap, ◌∙◌, inl, inr, true, Bool-cases, Option-cases, Option, none, some,
  List, Str, codes, without, ℤ, pos,
}
use distributed_cache_system.Prelude.Assoc.{Map}
use distributed_cache_system.Cluster.Replication.{
  ReplicationManager, ◌>>=◌, is_primary, get_replica_set, get_secondaries, replicate,
  replicate_write, replicate_delete,
}
use distributed_cache_system.Cluster.Replication.Primary.{is_primary-filled}
use distributed_cache_system.Cluster.Replication.Writes.{request, sending, replicate_lem}
use distributed_cache_system.Mitigator.{Mitigator, is_mitigated}
use distributed_cache_system.Mitigator.Copies.{Holds, set-Holds, copied}
use distributed_cache_system.Proto.{
  SetRequest, SetResponse, DeleteRequest, DeleteResponse, Operation, op_set, op_delete,
}
use distributed_cache_system.Ring.{Ring, get_nodes}
use distributed_cache_system.Server.{
  CacheServer, Reply, answered, ttl_of, proxy_conn, if_primary, write_here, set_here, set,
  delete_here, delete,
}
use distributed_cache_system.Server.Loads.{acts, relabel}
use distributed_cache_system.Server.Ready.{IsReady, IsServing, Watched}
use distributed_cache_system.Server.Routing.{handled_here, proxy_conn-primary}
use distributed_cache_system.Store.{Store}
use distributed_cache_system.Store.Methods.{Updates, existed, delete-Leaves}
use distributed_cache_system.Store.Valid.{IsValid, view}

-- The loads of the ring do not matter for the replication.
module _ {F : Type 0} (r : Ring F) (loads : Map ℕ) (key : Str) (rm : ReplicationManager) where
  pub is_primary-loads : is_primary (record r { loads = loads }) key rm ≡ is_primary r key rm
  unfolding is_primary get_nodes
  is_primary-loads = refl

  pub replicate-loads :
      (value : Str) (ttl_ms : ℤ) (op : Operation)
      → replicate (record r { loads = loads }) key value ttl_ms op rm
        ≡ replicate r key value ttl_ms op rm
  unfolding replicate get_secondaries get_nodes
  replicate-loads value ttl_ms op = refl

module _ {F : Type 0} (n : ℕ) (cs : CacheServer F) (ready : IsServing n cs) where
  pub write_here-Holds :
      (clock : ℕ → ℕ) (key value : Str) (ttl : ℤ)
      → (s : Store) × (m : Option Mitigator) × IsValid s
        × Holds value s key
        × Watched n m
        × ((loads : Map ℕ)
            → write_here clock key value ttl (relabel loads cs)
              ≡ some (acts (relabel loads cs) s cs.replication_mgr m))
  unfolding write_here
  write_here-Holds clock key value ttl =
      let (s, stored, v, here, _) =
        set-Holds key value ttl (clock 0) (clock 1) key cs.store ready.stored in
      elim (Option-cases cs.hot_key_mitigator) [
        | inl absent ↦ (s, none, v, here, tt, λ loads. rw (absent, stored) refl)
        | inr (m, present) ↦ elim (Bool-cases (is_mitigated key m)) [
          | inr cold ↦ (
            s,
            some m,
            v,
            here,
            ready.watched m present,
            λ loads.
                rw (present, write_here, cold, stored)
                  (ap (λ h. some (acts (relabel loads cs) s cs.replication_mgr h)) present),
          )
          | inl hot ↦
              let w = ready.watched m present in
              let (s', done, v', here', _) =
                copied key value ttl (λ i. clock (i + 2)) (clock 0) (clock 1)
                  (record m { store = cs.store }) ready.stored w.sharded w.small in
              (
                s',
                some (record m { store = s' }),
                v',
                here',
                w,
                λ loads. rw (present, write_here, hot, done) refl,
              )
        ]
      ]

module _ {F : Type 0} (cs : CacheServer F) (ready : IsReady cs) where
  module _ (rm : ReplicationManager) (key : Str) (managed : cs.replication_mgr ≡ some rm)
      (primary : is_primary cs.ring key rm ≡ some true) (many : 0 < rm.replica_count) where
    pub primary_local : proxy_conn is_primary key cs ≡ some none
    unfolding proxy_conn
    primary_local = rw (managed, primary) refl

    -- What the primary starts, whatever the loads of the ring are.
    starts :
        (value : Str) (ttl_ms : ℤ) (op : Operation)
        → (nodes : List Str) × (get_replica_set cs.ring key rm ≡ some nodes)
          × ((loads : Map ℕ) (s : Store) (m : Option Mitigator)
              → if_primary key
                  (λ rm. replicate (record cs.ring { loads = loads }) key value ttl_ms op rm)
                  (acts (relabel loads cs) s cs.replication_mgr m)
                ≡ some (
                    acts
                      (relabel loads cs)
                      s
                      (some
                        (sending (without rm.self_id nodes) (request key value ttl_ms op rm) rm))
                      m))
    unfolding if_primary
    starts value ttl_ms op =
        let filled = is_primary-filled cs.ring ready.ringed key rm primary in
        let (nodes, found, _, _, sent) =
          replicate_lem cs.ring ready.ringed rm many key value ttl_ms op filled in
        (
          nodes,
          found,
          λ loads s m.
              rw
                (
                  managed,
                  if_primary,
                  is_primary-loads cs.ring loads key rm ∙ primary,
                  replicate-loads cs.ring loads key rm value ttl_ms op ∙ sent,
                )
                refl,
        )

  -- Set on a ready server that is the primary of the key, with at least one replica for a key, does
  -- not panic, reports success, leaves the value under the key in a valid store, starts one write
  -- of the value to each other node of the replica set with the next sequence number, and keeps the
  -- ring with its loads.
  pub set-primary :
      (rm : ReplicationManager) (invoke : Str → SetRequest → Reply SetResponse) (clock : ℕ → ℕ)
      (req : SetRequest)
      → cs.replication_mgr ≡ some rm
      → is_primary cs.ring req.key rm ≡ some true
      → 0 < rm.replica_count
      → (nodes : List Str) × (s : Store) × (m : Option Mitigator) × (get_replica_set cs.ring req.key
            rm
          ≡ some nodes)
        × IsValid s
        × Holds req.value s req.key
        × (set invoke clock req cs
            ≡ some (
              acts cs s
                  (some (
                    sending
                      (without rm.self_id nodes)
                      (request req.key req.value req.ttl_ms op_set rm)
                      rm))
                  m,
              answered (record { success = true }),
            ))
  unfolding set set_here replicate_write
  set-primary rm invoke clock req managed primary many =
      let (s, m, v, here, _, stored) =
        write_here-Holds 1 cs ready clock req.key req.value (ttl_of req.ttl_ms) in
      let (nodes, found, sent) =
        starts rm req.key managed primary many req.value req.ttl_ms op_set in
      (
        nodes,
        s,
        m,
        found,
        v,
        here,
        handled_here cs ready.counted is_primary req.key (λ c. invoke c req) (set_here clock req)
            (λ loads. proxy_conn-primary loads req.key cs) s _ m _
            (primary_local rm req.key managed primary many)
            (λ loads. rw (stored loads, ◌>>=◌, sent loads s m) refl),
      )

  -- Delete on a ready server that is the primary of the key, with at least one replica for a key,
  -- does not panic, says whether the store had an entry for the key, leaves a valid store without
  -- it and with all other entries, starts one deletion on each other node of the replica set, and
  -- keeps the ring with its loads.
  pub delete-primary :
      (rm : ReplicationManager) (invoke : Str → DeleteRequest → Reply DeleteResponse)
      (req : DeleteRequest)
      → cs.replication_mgr ≡ some rm
      → is_primary cs.ring req.key rm ≡ some true
      → 0 < rm.replica_count
      → (nodes : List Str) × (s : Store) × (get_replica_set cs.ring req.key rm ≡ some nodes)
        × IsValid s
        × Updates cs.store req.key none s
        × (delete invoke req cs
            ≡ some (
              acts cs s
                  (some (
                    sending
                      (without rm.self_id nodes)
                      (request req.key (codes "") (pos 0) op_delete rm)
                      rm))
                  cs.hot_key_mitigator,
              answered (record { existed = existed (view cs.store req.key) }),
            ))
  unfolding delete delete_here replicate_delete
  delete-primary rm invoke req managed primary many =
      let (s, gone, l) = delete-Leaves cs.store req.key ready.stored in
      let (nodes, found, sent) =
        starts rm req.key managed primary many (codes "") (pos 0) op_delete in
      (
        nodes,
        s,
        found,
        l.valid,
        l.updates,
        handled_here cs ready.counted is_primary req.key (λ c. invoke c req) (delete_here req)
            (λ loads. proxy_conn-primary loads req.key cs) s _ cs.hot_key_mitigator _
            (primary_local rm req.key managed primary many)
            (λ loads. rw (gone, ◌>>=◌, sent loads s cs.hot_key_mitigator) refl),
      )
