-- ===== src/HttpServer.antt =====
-- internal/server/http_server.go: the admin endpoints, which only read.
-- A request is its method; `none` is the answer "method not allowed". Serving is left out.
use distributed_cache_system.Prelude.{
  ℕ, ◌+◌, ◌-◌, ◌%◌, Bool, Option, none, some, List, [], Str, str_eq, codes, if◌then◌else◌, ltb, ℤ,
  pos, u64_mod,
}
use distributed_cache_system.Prelude.Duration.{milliseconds}
use distributed_cache_system.Ring.{Ring, members}
use distributed_cache_system.Store.{Store, default_shard_count}
use distributed_cache_system.Store.Scan.{len}

pub record HttpServer (F : Type 0) : Type 0 where
  pub node_id : Str
  pub store : Store
  -- `h.ring`, which may be nil.
  pub ring : Option (Ring F)
  pub start_time : ℕ

pub record HealthResponse : Type 0 where
  pub status : Str
  pub node_id : Str
  pub uptime : Str

pub record MetricsResponse : Type 0 where
  pub node_id : Str
  pub keys_count : ℕ
  pub hits : ℕ
  pub misses : ℕ
  pub sets : ℕ
  pub deletes : ℕ
  pub expirations : ℕ
  pub hit_rate : Str
  pub uptime_ms : ℤ

pub record InfoResponse : Type 0 where
  pub node_id : Str
  pub version : Str
  pub go_version : Str
  pub shard_count : ℕ
  pub keys_count : ℕ
  pub uptime_ms : ℤ
  pub ring_members : List Str

abbrev is_get : Str → Bool
is_get method = str_eq method (codes "GET")

module _ {F : Type 0} where
  unfoldable pub new_http_server : ℕ → Str → Store → Option (Ring F) → HttpServer F
  new_http_server now node_id s r = record {
    node_id = node_id;
    store = s;
    ring = r;
    start_time = now;
  }

  -- `in_seconds` rounds a duration to seconds and prints it.
  unfoldable pub handle_health : (ℕ → Str) → ℕ → Str → HttpServer F → Option HealthResponse
  handle_health in_seconds now method h =
      if is_get method
      then some (record {
        status = codes "ok";
        node_id = h.node_id;
        uptime = in_seconds (now - h.start_time);
      })
      else none

  -- `percent hits total` prints the quotient of two numbers as a percentage.
  unfoldable pub handle_metrics :
      (ℕ → ℕ → Str) → ℕ → ℕ → Str → HttpServer F → Option MetricsResponse
  handle_metrics percent now later method h =
      let stats = h.store.stats in
      let total = (stats.hits + stats.misses) % u64_mod in
      if is_get method
      then some (record {
        node_id = h.node_id;
        keys_count = len now h.store;
        hits = stats.hits;
        misses = stats.misses;
        sets = stats.sets;
        deletes = stats.deletes;
        expirations = stats.expirations;
        hit_rate = if ltb 0 total then percent stats.hits total else codes "N/A";
        uptime_ms = milliseconds (pos (later - h.start_time));
      })
      else none

  unfoldable pub handle_info :
      (List Str → List Str) → ℕ → ℕ → Str → HttpServer F → Option InfoResponse
  handle_info sort_strings now later method h =
      if is_get method
      then some (record {
        node_id = h.node_id;
        version = codes "0.1.0";
        go_version = codes "go1.22";
        shard_count = default_shard_count;
        keys_count = len now h.store;
        uptime_ms = milliseconds (pos (later - h.start_time));
        ring_members = elim h.ring [ none ↦ [] | some r ↦ members sort_strings r ];
      })
      else none
