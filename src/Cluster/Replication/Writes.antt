-- ===== src/Cluster/Replication/Writes.antt =====
-- internal/cluster/replication.go: the requests that a write or a deletion sends.
use distributed_cache_system.Prelude.{
  ◌+◌, ◌%◌, ◌<◌, ◌==◌, ◌≡◌, ◌↔◌, refl, sym, ap, ◌∙◌, true, false, Bool-cases, inl, inr, none, some,
  List, [], ◌∷◌, ◌++◌, Str, without, arith, length, ℤ, u64_mod, min,
}
use mathlib.Core.List.{append_assoc, append-nil}
use distributed_cache_system.Cluster.Replication.{
  ReplicationManager, get_replica_set, get_secondaries, spawn_sends, replicate,
}
use distributed_cache_system.Proto.{Operation, ReplicateRequest}
use distributed_cache_system.Ring.{Ring, get_nodes, is_empty, size}
use distributed_cache_system.Ring.Failover.{get_nodes_lem}
use distributed_cache_system.Ring.Owners.{Nodup}
use distributed_cache_system.Ring.Valid.{IsValid}

-- The same request for each of some nodes.
abbrev pub sends : List Str → ReplicateRequest → List (Str × ReplicateRequest)
sends [] req = []
sends (n ∷ ns) req = (n, req) ∷ sends ns req

-- The next request of a manager.
abbrev pub request : Str → Str → ℤ → Operation → ReplicationManager → ReplicateRequest
request key value ttl_ms op rm = record {
  key = key;
  value = value;
  ttl_ms = ttl_ms;
  sequence = (rm.sequence + 1) % u64_mod;
  source_node = rm.self_id;
  op = op;
}

-- A manager that has started the sends of its next request to some nodes.
abbrev pub sending : List Str → ReplicateRequest → ReplicationManager → ReplicationManager
sending [] req rm = rm
sending (n ∷ ns) req rm = record rm {
  sequence = (rm.sequence + 1) % u64_mod;
  pending = rm.pending ++ sends (n ∷ ns) req;
}

abbrev with_pending : List (Str × ReplicateRequest) → ReplicationManager → ReplicationManager
with_pending l rm = record rm { pending = l }

spawn_sends-sends :
    (ns : List Str) (req : ReplicateRequest) (rm : ReplicationManager)
    → spawn_sends ns req rm ≡ record rm { pending = rm.pending ++ sends ns req }
unfolding spawn_sends
spawn_sends-sends [] req rm = ap (λ l. with_pending l rm) (sym (append-nil rm.pending))
spawn_sends-sends (n ∷ ns) req rm =
    spawn_sends-sends ns req (record rm { pending = rm.pending ++ (n, req) ∷ [] })
    ∙ ap (λ l. with_pending l rm) (append_assoc rm.pending ((n, req) ∷ []) (sends ns req))

module _ {F : Type 0} (r : Ring F) (v : IsValid r) (rm : ReplicationManager)
    (many : 0 < rm.replica_count) (key value : Str) (ttl_ms : ℤ) (op : Operation) where
  spawned :
      (ns : List Str)
      → elim ns [
        | [] ↦ some rm
        | n ∷ ns ↦ some (
            spawn_sends
              (n ∷ ns)
              (request key value ttl_ms op rm)
              (record rm { sequence = (rm.sequence + 1) % u64_mod }))
      ]
        ≡ some (sending ns (request key value ttl_ms op rm) rm)
  spawned [] = refl
  spawned (n ∷ ns) =
      ap (λ x. some x)
        (spawn_sends-sends (n ∷ ns) (request key value ttl_ms op rm)
          (record rm { sequence = (rm.sequence + 1) % u64_mod }))

  replicated :
      (nodes : List Str)
      → get_nodes key rm.replica_count r ≡ some nodes
      → 0 < length nodes
      → replicate r key value ttl_ms op rm
        ≡ some (sending (without rm.self_id nodes) (request key value ttl_ms op rm) rm)
  unfolding replicate get_secondaries
  replicated [] found h = absurd (omega arith)
  replicated (n ∷ ns) found h = rw found (spawned (without rm.self_id (n ∷ ns)))

  stuck_replicate :
      (nodes : List Str)
      → get_nodes key rm.replica_count r ≡ some nodes
      → length nodes ≡ 0
      → replicate r key value ttl_ms op rm ≡ none
  unfolding replicate get_secondaries
  stuck_replicate [] found h = rw found refl
  stuck_replicate (n ∷ ns) found h = absurd (omega arith)

  -- On a ring with members, a write or a deletion does not panic; it starts one send to each node of
  -- the replica set but this one, all with the same next sequence number, and nothing else.
  pub replicate_lem :
      is_empty r ≡ false
      → (nodes : List Str) × (get_replica_set r key rm ≡ some nodes)
        × Nodup nodes
        × (length nodes ≡ min rm.replica_count (size r))
        × (replicate r key value ttl_ms op rm
            ≡ some (sending (without rm.self_id nodes) (request key value ttl_ms op rm) rm))
  unfolding get_replica_set is_empty
  replicate_lem filled =
      let (nodes, found, nodup, members, long) = get_nodes_lem r v key rm.replica_count in
      (nodes, found, nodup, long, replicated nodes found (ground (arith, long)))

  -- On a valid ring, with at least one replica for a key, a replicated write or deletion panics
  -- exactly when the ring has no members.
  pub replicate-panics : (replicate r key value ttl_ms op rm ≡ none) ↔ (is_empty r ≡ true)
  unfolding is_empty
  replicate-panics =
      let (nodes, found, nodup, members, long) = get_nodes_lem r v key rm.replica_count in
      elim (Bool-cases (size r == 0)) [
        | inl empty ↦ (λ h. empty, λ h. stuck_replicate nodes found (ground (arith, long)))
        | inr filled ↦
            let sent = replicated nodes found (ground (arith, long)) in (λ h. (cc), λ h. (cc))
      ]
