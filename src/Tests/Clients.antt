-- ===== src/Tests/Clients.antt =====
-- A client of the two nodes, a node with injected faults, and its endpoints.
use mathlib.Core.Path.{subst}
use distributed_cache_system.Prelude.{
  ℕ, ◌+◌, ◌≤◌, ◌≡◌, refl, Bool, true, false, none, some, [], ◌∷◌, map, Str, codes, str_eq, arith,
  pos,
}
use distributed_cache_system.Prelude.Assoc.{lookup}
use distributed_cache_system.Prelude.Duration.{from_milliseconds}
use distributed_cache_system.Hash.{fnv64a}
use distributed_cache_system.Ring.{
  get_node, room_walk, has_room, max_load, average_load, sum_loads, search, bisect, at_least,
  hash_key,
}
use distributed_cache_system.Chaos.{FaultInjector, new_fault_injector}
use distributed_cache_system.Chaos.Endpoints.{
  reported, handle_slow_node, handle_recover, handle_status, handle_slow_node-handle_status,
}
use distributed_cache_system.Client.{Client, Outcome, done, get, set, get_conn, remote_get}
use distributed_cache_system.Client.Hot.{IsCaching, get-remote_get, get-get_hot}
use distributed_cache_system.L1Cache.{L1Cache, entry_of, new_l1_cache, positive_or}
use distributed_cache_system.L1Cache.Links.{entries, find}
use distributed_cache_system.L1Cache.Refines.{IsValid, read, new_l1_cache-IsValid}
use distributed_cache_system.Proto.{GetRequest, GetResponse}
use distributed_cache_system.Server.{Reply, answered, failed}
use distributed_cache_system.Service.{handle_get, start_interceptor}
use distributed_cache_system.Service.Refusal.{handle-refused}
use distributed_cache_system.Tests.Replication.{east, west, apple, ring, ring-IsValid}
use distributed_cache_system.Tests.Rings.{whole_numbers}
use distributed_cache_system.Tests.Servers.{server, lost, ticks}

handle_slow_node-handle_status_example :
    (handle_status
        (codes "GET")
        (handle_slow_node (codes "POST") (some (pos 250)) new_fault_injector).0
      ≡ reported (record {
        failed = new_fault_injector.failed;
        latency_ms = pos 250;
        partitioned = map (λ (kv : Str × Bool). kv.0) new_fault_injector.partitioned;
      }))
    × (handle_status
          (codes "GET")
          (handle_recover
            (codes "POST")
            (handle_slow_node (codes "POST") (some (pos 250)) new_fault_injector).0).0
        ≡ reported (record { failed = false; latency_ms = pos 0; partitioned = [] }))
handle_slow_node-handle_status_example =
    handle_slow_node-handle_status 250 new_fault_injector (omega arith)

abbrev broken : FaultInjector
broken = record { failed = true; latency = pos 0; partitioned = [] }

handle-refused_example :
    handle_get ticks lost
      (answered (record { key = apple }))
      (start_interceptor true (some broken))
      (server east)
    ≡ some (server east, failed)
handle-refused_example =
    ((handle-refused true broken ticks (server east) lost lost lost lost).0 refl).0
      (answered (record { key = apple }))

abbrev cache : L1Cache
cache = new_l1_cache (pos 10) (pos 500)

abbrev client : Client ℕ
client = record {
  ring = ring;
  conns = (east, codes "e:1") ∷ (west, codes "w:1") ∷ [];
  addrs = (east, codes "e:1") ∷ (west, codes "w:1") ∷ [];
  l1_cache = some cache;
  dial_timeout = pos 5;
  request_timeout = pos 3;
}

client-IsCaching : IsCaching client
client-IsCaching l h =
    let same : cache ≡ l = ground arith in
    subst (λ x. IsValid x) same (new_l1_cache-IsValid (pos 10) (pos 500))

get-remote_get_example :
    (c' : Client ℕ) × (o : Outcome Unit) × (set whole_numbers lost apple
        (codes "red")
        (pos 9)
        client
      ≡ some (c', o))
    × (get whole_numbers lost 5 6 apple c' ≡ remote_get whole_numbers lost 6 apple c')
get-remote_get_example =
    (get-remote_get whole_numbers client apple client-IsCaching ring-IsValid lost lost lost
      (codes "red") (pos 9) 5 6).0

abbrev hot_apple : GetResponse
hot_apple = record { key = apple; value = codes "red"; found = true; ttl_ms = pos 0; is_hot = true }

-- The same client with an L1 cache that holds an entry of the key which expired at time 2.
abbrev stale : L1Cache
stale = record {
  capacity = 10;
  evict_list = (0, record { key = apple; value = codes "old"; expires_at = 2 }) ∷ [];
  items = (apple, 0) ∷ [];
  default_ttl = 500;
  next_element = 1;
}

stale-IsValid : IsValid stale
unfolding lookup entry_of
stale-IsValid = record {
  roomy = omega arith;
  bounded = omega arith;
  unique = (refl, refl, tt);
  fresh = (omega arith, tt);
  linked = λ q. refl;
}

abbrev stale_client : Client ℕ
stale_client = record client { l1_cache = some stale }

stale_client-IsCaching : IsCaching stale_client
stale_client-IsCaching l h =
    let same : stale ≡ l = ground arith in subst (λ x. IsValid x) same stale-IsValid

not_cached : read 5 (find apple (entries stale.evict_list)) ≡ none
unfolding str_eq
not_cached = refl

soon : 400 ≤ 6 + positive_or (from_milliseconds (pos 0)) stale.default_ttl
unfolding from_milliseconds positive_or
soon = omega arith

abbrev answers_hot : Str → GetRequest → Reply GetResponse
answers_hot conn req = answered hot_apple

to_east : get_conn whole_numbers apple stale_client ≡ some (done (codes "e:1"))
unfolding get_conn get_node room_walk has_room max_load average_load sum_loads search bisect
    at_least hash_key fnv64a lookup str_eq
to_east = refl

get-get_hot_example :
    (c' c'' : Client ℕ) × (get whole_numbers answers_hot 5 6 apple stale_client
      ≡ some (c', done (codes "red", true)))
    × (get whole_numbers lost 400 401 apple c' ≡ some (c'', done (codes "red", true)))
get-get_hot_example =
    get-get_hot whole_numbers stale_client apple stale_client-IsCaching ring-IsValid answers_hot
      lost (codes "e:1") hot_apple 5 6 400 401 stale refl not_cached to_east refl refl refl soon
