-- ===== src/Tests/Servers.antt =====
-- Servers of the two nodes, and a client of theirs.
use mathlib.Core.Path.{subst}
use distributed_cache_system.Prelude.{
  ℕ, zero, suc, ◌+◌, ◌<◌, ◌≡◌, ◌≢◌, refl, sym, Bool, true, Option, none, some, List, [], ◌∷◌, ◌++◌,
  map, Str, codes, str_eq, elem, without, arith, if◌then◌else◌, pos, u64_mod, get_elem?, Has,
}
use distributed_cache_system.Prelude.Assoc.{lookup}
use distributed_cache_system.Cluster.Replication.{
  ReplicationManager, is_replica, get_primary, get_replica_set, get_peer_conn,
}
use distributed_cache_system.Cluster.Replication.Primary.{is_primary_unique}
use distributed_cache_system.Hash.Mask.{bit_and-le}
use distributed_cache_system.Mitigator.{Mitigator}
use distributed_cache_system.Mitigator.Copies.{Holds}
use distributed_cache_system.Proto.{ExpireRequest}
use distributed_cache_system.Proto.{SetRequest, ReplicateRequest, TransferKeysRequest, KeyValuePair}
use distributed_cache_system.Server.{
  CacheServer, Reply, answered, failed, ttl_of, proxy_conn, get, set,
}
use distributed_cache_system.Server.Loads.{acts}
use distributed_cache_system.Server.Ready.{IsReady, IsServing, IsWatching}
use distributed_cache_system.Sketch.{new_count_min_sketch}
use distributed_cache_system.Sketch.Stream.{new-Tracks}
use distributed_cache_system.Server.Reads.{answer, get-answer}
use distributed_cache_system.Server.Replicas.{set-replicate-get, replicate-last}
use distributed_cache_system.Server.Routing.{get-passed_on}
use distributed_cache_system.Server.Peers.{replicate, transfer_keys}
use distributed_cache_system.Server.Transfer.{pair_of, transfer_keys-streamed}
use distributed_cache_system.Server.Renewals.{expire-primary}
use distributed_cache_system.Server.Writes.{set-primary, delete-primary}
use distributed_cache_system.Store.{Store, Shard, no_stats, shard_index}
use distributed_cache_system.Store.Methods.{Updates, purged}
use distributed_cache_system.Store.Reads.{value_of, not_over}
use distributed_cache_system.Store.Scan.Listed.{visits_in}
use distributed_cache_system.Store.Valid.{IsValid, view}
use distributed_cache_system.Tests.Replication.{
  east, west, apple, ring, manager, copy, ring-IsValid, east-is_primary, west-is_not_primary,
  west-is_replica, ring-replicas, west-not_east,
}

abbrev shelf : Store
shelf = record { shards = record { items = [] } ∷ []; shard_mask = 0; stats = no_stats }

only :
    (i : ℕ) (sh : Shard)
    → get_elem? shelf.shards i ≡ some sh
    → (i ≡ 0) × (sh ≡ record { items = [] })
only zero sh h = (refl, ground arith)
only (suc i) sh h = ground arith

shelf-IsValid : IsValid shelf
unfolding shard_index
shelf-IsValid = record {
  masked = omega arith;
  distinct = λ i sh h. rw ((only i sh h).1) tt;
  placed = λ i sh k e h held. omega (arith, (only i sh h).0, bit_and-le _ 0);
}

abbrev watcher : Mitigator
watcher = record {
  store = shelf;
  detector = record {
    sketch = new_count_min_sketch 64 2;
    hot_threshold = 100;
    decay_period = 60000000000;
  };
  shard_count = 4;
  mitigated_keys = [];
  mitigation_count = 0;
}

watcher-IsWatching : (n : ℕ) → n < 1000 → IsWatching n watcher.shard_count watcher.detector.sketch
unfolding new_count_min_sketch
watcher-IsWatching n few = record {
  sharded = omega arith;
  small = omega arith;
  accesses = λ q. 0;
  tracks = new-Tracks 64 2;
  roomy = omega arith;
}

abbrev pub server : Str → CacheServer ℕ
server id = record {
  node_id = id;
  store = shelf;
  ring = ring;
  counts_loads = true;
  replication_mgr = some (manager id);
  hot_key_mitigator = some watcher;
  start_time = 0;
}

small_loads : (id : Str) (l : ℕ) → lookup id ring.loads ≡ some l → l < u64_mod
unfolding lookup
small_loads id l h = ground arith

pub server-IsServing : (n : ℕ) (id : Str) → n < 1000 → IsServing n (server id)
server-IsServing n id few = record {
  stored = shelf-IsValid;
  ringed = ring-IsValid;
  counted = small_loads id;
  watched = λ m h.
      let same : watcher ≡ m = ground arith in
      subst (λ x. IsWatching n x.shard_count x.detector.sketch) same (watcher-IsWatching n few);
}

server-IsReady : (id : Str) → IsReady (server id)
server-IsReady id = server-IsServing 1 id (omega arith)

west-serves : proxy_conn is_replica apple (server west) ≡ some none
unfolding proxy_conn
west-serves = rw west-is_replica refl

abbrev pub ticks : ℕ → ℕ
ticks i = 100 + i

abbrev pub lost : {Req A : Type 0} → Str → Req → Reply A
lost conn req = failed

abbrev pub put_apple : SetRequest
put_apple = record { key = apple; value = codes "red"; ttl_ms = pos 1000 }

get-answer_example :
    (s : Store) × (m : Option Mitigator) × (hot : Bool) × IsValid s
    × (get lost ticks (record { key = apple }) (server west)
        ≡ some (
          acts (server west) s (some (manager west)) m,
          answer apple (value_of (purged 100 (view shelf apple))) hot,
        ))
get-answer_example =
    get-answer (server west) (server-IsReady west) lost ticks (record { key = apple }) west-serves

set-primary_example :
    (nodes : List Str) × (s : Store) × (m : Option Mitigator) × (get_replica_set ring apple
        (manager east)
      ≡ some nodes)
    × IsValid s
    × Holds (codes "red") s apple
set-primary_example =
    let r =
      set-primary (server east) (server-IsReady east) (manager east) lost ticks put_apple refl
        east-is_primary (omega arith) in
    (r.0, r.1, r.2, r.3, r.4, r.5)

delete-primary_example :
    (nodes : List Str) × (s : Store) × (get_replica_set ring apple (manager east) ≡ some nodes)
    × IsValid s
    × Updates shelf apple none s
delete-primary_example =
    let r =
      delete-primary (server east) (server-IsReady east) (manager east) lost
        (record { key = apple }) refl east-is_primary (omega arith) in
    (r.0, r.1, r.2, r.3, r.4)

west-get_primary : get_primary ring apple (manager west) ≡ some (some east)
west-get_primary =
    (is_primary_unique ring ring-IsValid apple (manager east) (manager west) (omega arith)
      east-is_primary).0

east_conn : get_peer_conn east (manager west) ≡ some (codes "e:1")
unfolding get_peer_conn lookup str_eq
east_conn = refl

east_differs : east ≢ west
east_differs same = west-not_east (sym same)

west_is_secondary : elem west (without east (east ∷ west ∷ [])) ≡ true
unfolding str_eq
west_is_secondary = refl

get-passed_on_example :
    set lost ticks put_apple (server west) ≡ some (server west, lost (codes "e:1") put_apple)
get-passed_on_example =
    ((get-passed_on (server west) (small_loads west) (manager west) apple east (codes "e:1") ticks
          refl west-get_primary east_differs east_conn).1
        west-is_not_primary).0
      lost put_apple refl

set-replicate-get_example :
    (s : Store) × (m : Option Mitigator) × (rm' : ReplicationManager) × (copy : ReplicateRequest)
    × (b' b'' : CacheServer ℕ) × (hot : Bool) × (set lost ticks put_apple (server east)
        ≡ some (acts (server east) s (some rm') m, answered (record { success = true })))
    × Has (west, copy) rm'.pending
    × (replicate ticks copy (server west) ≡ some (b', answered (record { success = true })))
    × (get lost (λ i. 200 + i) (record { key = apple }) b'
        ≡ some (
          b'',
          answer apple
              (if not_over (ttl_of (pos 1000)) 101 200 then some (codes "red") else none)
              hot,
        ))
set-replicate-get_example =
    set-replicate-get (server east) (server west) (manager east) west (east ∷ west ∷ []) lost lost
      ticks ticks (λ i. 200 + i) put_apple (server-IsReady east) (server-IsReady west) refl
      east-is_primary (omega arith) ring-replicas west_is_secondary west-serves

abbrev late_copy : ReplicateRequest
late_copy = record copy { value = codes "green"; sequence = 6 }

replicate-last_example :
    (s s' : Store) × (replicate ticks copy (server west)
      ≡ some (
        acts (server west) s (some (manager west)) (some watcher),
        answered (record { success = true }),
      ))
    × (replicate ticks late_copy (acts (server west) s (some (manager west)) (some watcher))
        ≡ some (
          acts (server west) s' (some (manager west)) (some watcher),
          answered (record { success = true }),
        ))
    × (value_of (view s' apple) ≡ some (codes "green"))
replicate-last_example = replicate-last (server west) ticks ticks copy late_copy shelf-IsValid refl

abbrev ask : TransferKeysRequest
ask = record { range_start = 0; range_end = 9; requesting_node = west }

transfer_keys-streamed_example :
    (sent rest : List KeyValuePair) × (transfer_keys (λ l kv. true) 5 ask (server east)
      ≡ (sent, answered tt))
    × (map pair_of (visits_in 5 shelf.shards) ≡ sent ++ rest)
transfer_keys-streamed_example =
    let r = transfer_keys-streamed (λ l kv. true) 5 ask (server east) in (r.0, r.1, r.2, r.3)

abbrev pub keep_apple : ExpireRequest
keep_apple = record { key = apple; ttl_ms = pos 5 }

expire-primary_example :
    (nodes : List Str) × (s : Store) × (get_replica_set ring apple (manager east) ≡ some nodes)
    × IsValid s
expire-primary_example =
    let r =
      expire-primary (server east) (server-IsReady east) (manager east) ticks keep_apple lost refl
        east-is_primary (omega arith) in
    (r.0, r.1, r.2, r.3)
