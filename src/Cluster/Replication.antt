-- ===== src/Cluster/Replication.antt =====
-- internal/cluster/replication.go: the replication of writes to the other owners of a key.
-- The store and the ring are shared with the server, so they are arguments here. A goroutine that
-- sends a request waits in `pending`, and `send_replicate` is what it does when it runs. A
-- connection is the address that was dialled. `none` is a run-time panic.
pub mod Primary
pub mod Writes
pub mod Repair
pub mod Shutdown
use distributed_cache_system.Prelude.{
  ℕ, zero, suc, ◌+◌, ◌%◌, Bool, true, false, Option, none, some, List, [], ◌∷◌, ◌++◌, map, Str,
  codes, str_eq, elem, without, if◌then◌else◌, ltb, ℤ, pos, negsuc, u64_mod, length,
}
use distributed_cache_system.Prelude.Assoc
use distributed_cache_system.Prelude.Assoc.{Map, lookup, insert, has}
use distributed_cache_system.Prelude.Duration.{milliseconds}
use distributed_cache_system.Proto.{Operation, op_set, op_delete, ReplicateRequest}
use distributed_cache_system.Ring.{Ring, get_nodes}
use distributed_cache_system.Store.{Store}
use distributed_cache_system.Store.Scan.{for_each}

pub record ReplicationEvent : Type 0 where
  pub key : Str
  pub operation : Operation
  pub target : Str
  pub success : Bool
  pub timestamp : ℕ

pub record ReplicationManager : Type 0 where
  pub self_id : Str
  pub replica_count : ℕ
  pub sequence : ℕ
  pub peer_conns : Map Str
  pub replication_events : List ReplicationEvent
  -- Whether `replicationEvents` has been closed.
  pub events_closed : Bool
  pub pending : List (Str × ReplicateRequest)

abbrev pub event_capacity : ℕ
event_capacity = 1000

unfoldable pub replicas_or_default : ℤ → ℕ
replicas_or_default (pos zero) = 3
replicas_or_default (pos (suc n)) = suc n
replicas_or_default (negsuc n) = 3

unfoldable pub new_replication_manager : Str → ℤ → ReplicationManager
unfolding replicas_or_default
new_replication_manager self_id replica_count = record {
  self_id = self_id;
  replica_count = replicas_or_default replica_count;
  sequence = 0;
  peer_conns = [];
  replication_events = [];
  events_closed = false;
  pending = [];
}

infixl 5 ◌>>=◌
abbrev pub ◌>>=◌ : {A B : Type 0} → Option A → (A → Option B) → Option B
none >>= f = none
some a >>= f = f a

-- The goroutines that are started, one for each secondary, with the same request.
unfoldable pub spawn_sends : List Str → ReplicateRequest → ReplicationManager → ReplicationManager
spawn_sends [] req rm = rm
spawn_sends (n ∷ ns) req rm =
    spawn_sends ns req (record rm { pending = rm.pending ++ (n, req) ∷ [] })

module _ {F : Type 0} (r : Ring F) where
  unfoldable pub is_primary : Str → ReplicationManager → Option Bool
  is_primary key rm = do
    nodes ← get_nodes key 1 r
    some (elim nodes [ [] ↦ false | n ∷ _ ↦ str_eq n rm.self_id ])

  unfoldable pub is_replica : Str → ReplicationManager → Option Bool
  is_replica key rm = do nodes ← get_nodes key rm.replica_count r; some (elem rm.self_id nodes)

  unfoldable pub get_primary : Str → ReplicationManager → Option (Option Str)
  get_primary key rm = do
    nodes ← get_nodes key 1 r
    some (elim nodes [ [] ↦ none | n ∷ _ ↦ some n ])

  unfoldable pub get_replica_set : Str → ReplicationManager → Option (List Str)
  get_replica_set key rm = get_nodes key rm.replica_count r

  -- `make([]string, 0, len(allReplicas)-1)` panics when there are no replicas.
  unfoldable pub get_secondaries : Str → ReplicationManager → Option (List Str)
  get_secondaries key rm = do
    all_replicas ← get_nodes key rm.replica_count r
    elim all_replicas [ [] ↦ none | n ∷ ns ↦ some (without rm.self_id (n ∷ ns)) ]

  -- What `ReplicateWrite` and `ReplicateDelete` share: the next sequence number and the sends.
  unfoldable pub replicate :
      Str → Str → ℤ → Operation → ReplicationManager → Option ReplicationManager
  replicate key value ttl_ms op rm = do
    replicas ← get_secondaries key rm
    elim replicas [
      | [] ↦ some rm
      | n ∷ ns ↦
          let seq = (rm.sequence + 1) % u64_mod in
          some (
            spawn_sends (n ∷ ns)
              (record {
                key = key;
                value = value;
                ttl_ms = ttl_ms;
                sequence = seq;
                source_node = rm.self_id;
                op = op;
              })
              (record rm { sequence = seq }))
    ]

  unfoldable pub replicate_write : Str → Str → ℤ → ReplicationManager → Option ReplicationManager
  replicate_write key value ttl_ms rm = replicate key value ttl_ms op_set rm

  unfoldable pub replicate_delete : Str → ReplicationManager → Option ReplicationManager
  replicate_delete key rm = replicate key (codes "") (pos 0) op_delete rm

-- A send on a closed channel panics; on a full one the event is dropped.
unfoldable pub emit_event : ReplicationEvent → ReplicationManager → Option ReplicationManager
emit_event event rm =
    if rm.events_closed
    then none
    else if ltb (length rm.replication_events) event_capacity
    then some (record rm { replication_events = rm.replication_events ++ event ∷ [] })
    else some rm

-- `sendReplicate`; `answers` says whether the call through a connection ends without an error.
unfoldable pub send_replicate :
    (Str → ReplicateRequest → Bool)
    → ℕ
    → Str
    → ReplicateRequest
    → ReplicationManager
    → Option ReplicationManager
send_replicate answers now node_id req rm =
    emit_event
      (record {
        key = req.key;
        operation = req.op;
        target = node_id;
        success = elim (lookup node_id rm.peer_conns) [
          | none ↦ false
          | some conn ↦ answers conn req
        ];
        timestamp = now;
      })
      rm

-- `dials` says which addresses can be dialled; the result, whether there was no error.
unfoldable pub connect_to_peer :
    (Str → Bool) → Str → Str → ReplicationManager → ReplicationManager × Bool
connect_to_peer dials node_id addr rm =
    if has node_id rm.peer_conns
    then (rm, true)
    else if dials addr
    then (record rm { peer_conns = insert node_id addr rm.peer_conns }, true)
    else (rm, false)

unfoldable pub disconnect_peer : Str → ReplicationManager → ReplicationManager
disconnect_peer node_id rm = record rm { peer_conns = Assoc.delete node_id rm.peer_conns }

unfoldable pub get_peer_conn : Str → ReplicationManager → Option Str
get_peer_conn node_id rm = lookup node_id rm.peer_conns

-- Closing the channel a second time panics.
unfoldable pub close : ReplicationManager → Option ReplicationManager
close rm =
    if rm.events_closed then none else some (record rm { peer_conns = []; events_closed = true })

module _ {F : Type 0} (r : Ring F) where
  -- The callback of `reReplicateForDeadNode`, on a manager that may have panicked.
  unfoldable pub re_replicate_one :
      Str → Str → ℕ → Option ReplicationManager → Option ReplicationManager × Bool
  re_replicate_one key value ttl state = (
    (do
      rm ← state
      primary ← is_primary r key rm
      elim primary [
        | false ↦ some rm
        | true ↦ replicate_write r key value (milliseconds (pos ttl)) rm
      ]),
    true,
  )

  unfoldable pub re_replicate_for_dead_node :
      ℕ → Store → ReplicationManager → Option ReplicationManager
  re_replicate_for_dead_node now s rm = for_each now re_replicate_one s (some rm)

  unfoldable pub handle_node_failure :
      ℕ → Str → Store → ReplicationManager → Option ReplicationManager
  unfolding disconnect_peer
  handle_node_failure now dead_node_id s rm =
      re_replicate_for_dead_node now s (disconnect_peer dead_node_id rm)
