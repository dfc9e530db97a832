-- ===== src/Client.antt =====
-- client/client.go: the client, which finds the node of a key on a ring of its own and keeps hot
-- values in its L1 cache.
-- A connection is the address that was dialled; `dials` says which addresses can be. `invoke` is
-- what a call through a connection answers before the request times out. `none` is a run-time
-- panic.
pub mod Hot
use distributed_cache_system.Prelude.{
  ℕ, Bool, true, false, not, ◌&&◌, ◌||◌, Option, none, some, List, [], ◌∷◌, map, Str, if◌then◌else◌,
  ℤ, pos,
}
use distributed_cache_system.Prelude.Assoc.{Map, lookup, insert}
use distributed_cache_system.Prelude.Duration.{from_milliseconds, milliseconds}
use distributed_cache_system.Cluster.Replication.{◌>>=◌}
use distributed_cache_system.L1Cache
use distributed_cache_system.L1Cache.{L1Cache, new_l1_cache}
use distributed_cache_system.Proto.{
  GetRequest, GetResponse, SetRequest, SetResponse, DeleteRequest, DeleteResponse, PingResponse,
}
use distributed_cache_system.Ring.{Float64, Ring, VNode, new_ring, add_node, get_node, members}
use distributed_cache_system.Server.{Reply, answered, failed}

-- How an operation of the client ends.
pub data Outcome (A : Type 0) : Type 0 where
  done : A → Outcome A
  no_nodes : Outcome A
  no_connection : Str → Outcome A
  call_failed : Outcome A

pub record Client (F : Type 0) : Type 0 where
  pub ring : Ring F
  pub conns : Map Str
  pub addrs : Map Str
  pub l1_cache : Option L1Cache
  pub dial_timeout : ℤ
  pub request_timeout : ℤ

-- The functional options.
pub data ClientOption : Type 0 where
  with_dial_timeout with_request_timeout : ℤ → ClientOption
  with_l1_cache : ℤ → ℤ → ClientOption

module _ {F : Type 0} where
  unfoldable pub apply_option : ClientOption → Client F → Client F
  apply_option (with_dial_timeout d) c = record c { dial_timeout = d }
  apply_option (with_request_timeout d) c = record c { request_timeout = d }
  apply_option (with_l1_cache capacity default_ttl) c = record c {
    l1_cache = some (new_l1_cache capacity default_ttl);
  }

  unfoldable pub apply_options : List ClientOption → Client F → Client F
  apply_options [] c = c
  apply_options (o ∷ os) c = apply_options os (apply_option o c)

  unfoldable pub add_client_node :
      (List VNode → List VNode) → (Str → Bool) → Str → Str → Client F → Outcome (Client F)
  add_client_node sort_slice dials node_id addr c =
      if dials addr
      then done (record c {
        conns = insert node_id addr c.conns;
        addrs = insert node_id addr c.addrs;
        ring = (add_node sort_slice node_id c.ring).0;
      })
      else call_failed

  -- Stops at the first node that cannot be reached.
  unfoldable pub connect_all :
      (List VNode → List VNode) → (Str → Bool) → Map Str → Client F → Outcome (Client F)
  connect_all sort_slice dials [] c = done c
  connect_all sort_slice dials ((node_id, addr) ∷ nodes) c =
      elim (add_client_node sort_slice dials node_id addr c) [
        | done c' ↦ connect_all sort_slice dials nodes c'
        | no_nodes ↦ no_nodes
        | no_connection n ↦ no_connection n
        | call_failed ↦ call_failed
      ]

  -- `Nodes()`.
  unfoldable pub nodes : (List Str → List Str) → Client F → List Str
  nodes sort_strings c = members sort_strings c.ring

  -- `closes` says whether a connection is closed without an error; the result, whether all are.
  unfoldable pub close : (Str → Bool) → Client F → Client F × Bool
  close closes c = (
    record c {
      conns = [];
      l1_cache = elim c.l1_cache [ none ↦ none | some l ↦ some (L1Cache.clear l) ];
    },
    all_closed c.conns,
  )
    where
      all_closed : Map Str → Bool
      all_closed [] = true
      all_closed ((node_id, conn) ∷ m) = closes conn && all_closed m

  -- The L1 cache, if the client has one.
  unfoldable pub l1_get : ℕ → Str → Client F → Option (Client F × Option Str)
  l1_get now key c = elim c.l1_cache [
    | none ↦ some (c, none)
    | some l ↦ do (l', value) ← L1Cache.get now key l; some (record c { l1_cache = some l' }, value)
  ]

  unfoldable pub l1_set : ℕ → Str → Str → ℤ → Client F → Option (Client F)
  l1_set now key value ttl c = elim c.l1_cache [
    | none ↦ some c
    | some l ↦ do l' ← L1Cache.set now key value ttl l; some (record c { l1_cache = some l' })
  ]

  unfoldable pub l1_delete : Str → Client F → Option (Client F)
  l1_delete key c = elim c.l1_cache [
    | none ↦ some c
    | some l ↦ do l' ← L1Cache.delete key l; some (record c { l1_cache = some l' })
  ]

  unfoldable pub ping : (Str → Reply PingResponse) → Str → Client F → Outcome PingResponse
  ping invoke node_id c = elim (lookup node_id c.conns) [
    | none ↦ no_connection node_id
    | some conn ↦ elim (invoke conn) [ failed ↦ call_failed | answered resp ↦ done resp ]
  ]

unfoldable pub new_client :
    (fl : Float64)
    → (List VNode → List VNode)
    → (Str → Bool)
    → Map Str
    → List ClientOption
    → Outcome (Client fl.Number)
new_client fl sort_slice dials nodes opts = connect_all sort_slice dials nodes (
    apply_options opts (record {
      ring = new_ring fl (pos 150) fl.quarter;
      conns = [];
      addrs = [];
      l1_cache = none;
      dial_timeout = pos 5000000000;
      request_timeout = pos 3000000000;
    }))

module _ (fl : Float64) where
  unfoldable pub get_conn : Str → Client fl.Number → Option (Outcome Str)
  get_conn key c = do
    owner ← get_node fl key c.ring
    some (elim owner [
      | none ↦ no_nodes
      | some node_id ↦ elim (lookup node_id c.conns) [
        | none ↦ no_connection node_id
        | some conn ↦ done conn
      ]
    ])

  unfoldable pub node_for_key : Str → Client fl.Number → Option (Outcome Str)
  node_for_key key c = do
    owner ← get_node fl key c.ring
    some (elim owner [ none ↦ no_nodes | some node_id ↦ done node_id ])

  -- A call to the node of a key, or the reason why there is none.
  unfoldable pub call_node :
      {A B : Type 0}
      → Str
      → (Str → Reply A)
      → (A → Client fl.Number → Option (Client fl.Number × B))
      → Client fl.Number
      → Option (Client fl.Number × Outcome B)
  call_node key invoke use_reply c = do
    route ← get_conn key c
    elim route [
      | no_nodes ↦ some (c, no_nodes)
      | no_connection n ↦ some (c, no_connection n)
      | call_failed ↦ some (c, call_failed)
      | done conn ↦ elim (invoke conn) [
        | failed ↦ some (c, call_failed)
        | answered a ↦ do (c', b) ← use_reply a c; some (c', done b)
      ]
    ]

  -- A hot value that was found goes into the L1 cache.
  unfoldable pub keep_hot :
      ℕ → Str → GetResponse → Client fl.Number → Option (Client fl.Number × (Str × Bool))
  keep_hot now key resp c = elim (resp.found && resp.is_hot) [
    | false ↦ some (c, (resp.value, resp.found))
    | true ↦ do
      c' ← l1_set now key resp.value (from_milliseconds resp.ttl_ms) c
      some (c', (resp.value, resp.found))
  ]

  -- `Get` past the L1 cache.
  unfoldable pub remote_get :
      (Str → GetRequest → Reply GetResponse)
      → ℕ
      → Str
      → Client fl.Number
      → Option (Client fl.Number × Outcome (Str × Bool))
  remote_get invoke now key =
      call_node key (λ conn. invoke conn (record { key = key })) (keep_hot now key)

  -- The clock is read for the L1 lookup and, after the call, for the L1 entry.
  unfoldable pub get :
      (Str → GetRequest → Reply GetResponse)
      → ℕ
      → ℕ
      → Str
      → Client fl.Number
      → Option (Client fl.Number × Outcome (Str × Bool))
  get invoke now later key c = do
    (c₁, cached) ← l1_get now key c
    elim cached [
      | some value ↦ some (c₁, done (value, true))
      | none ↦ remote_get invoke later key c₁
    ]

  unfoldable pub set :
      (Str → SetRequest → Reply SetResponse)
      → Str
      → Str
      → ℤ
      → Client fl.Number
      → Option (Client fl.Number × Outcome Unit)
  set invoke key value ttl c = do
    c₁ ← l1_delete key c
    call_node key
        (λ conn. invoke conn (record { key = key; value = value; ttl_ms = milliseconds ttl }))
        (λ resp c'. some (c', tt)) c₁

  unfoldable pub delete :
      (Str → DeleteRequest → Reply DeleteResponse)
      → Str
      → Client fl.Number
      → Option (Client fl.Number × Outcome Bool)
  delete invoke key c = do
    c₁ ← l1_delete key c
    call_node key (λ conn. invoke conn (record { key = key }))
        (λ (resp : DeleteResponse) c'. some (c', resp.existed)) c₁
