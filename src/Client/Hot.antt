-- ===== src/Client/Hot.antt =====
-- client/client.go: when an answer comes from the L1 cache, and when from a node.
use mathlib.Core.Path.{subst}
use distributed_cache_system.Prelude.{
  ℕ, zero, suc, ◌+◌, ◌<◌, ◌≤◌, ◌≡◌, refl, ap, ◌∙◌, inl, inr, ◌⊎◌, Bool, true, false, Bool-cases,
  Option-cases, Option, none, some, List, [], ◌∷◌, Str, str_eq_iff, arith, ltb, take, ℤ,
}
use distributed_cache_system.Prelude.Assoc.{lookup}
use distributed_cache_system.Prelude.Duration.{from_milliseconds, milliseconds}
use distributed_cache_system.Client.{
  Client, Outcome, done, no_nodes, no_connection, call_failed, l1_get, l1_set, l1_delete, call_node,
  get_conn, keep_hot, remote_get, get, set, delete,
}
use distributed_cache_system.Cluster.Replication.{◌>>=◌}
use distributed_cache_system.L1Cache
use distributed_cache_system.L1Cache.{L1Entry, L1Cache, EvictList, positive_or}
use distributed_cache_system.L1Cache.Links.{
  element_of, entries, find, drop_key, Unique, find_of_none,
}
use distributed_cache_system.L1Cache.Refines.{IsValid, read as read_of, get-Refines}
use distributed_cache_system.L1Cache.Writes.{delete-Refines, set-Refines}
use distributed_cache_system.Proto.{
  GetRequest, GetResponse, SetRequest, SetResponse, DeleteRequest, DeleteResponse,
}
use distributed_cache_system.Ring.{Float64, Ring, get_node}
use distributed_cache_system.Ring.Order.{IsSorted}
use distributed_cache_system.Ring.Placement.{get_node-placed}
use distributed_cache_system.Ring.Valid.{IsValid as IsValidRing}
use distributed_cache_system.Server.{Reply, answered, failed}

find_dropped : (k : Str) (l : EvictList) → Unique l → find k (drop_key k (entries l)) ≡ none
find_dropped k [] u = refl
find_dropped k ((x, e) ∷ l) u =
    ground (arith, find_dropped k l u.2, find_of_none e.key l u.1, str_eq_iff e.key k)

element_of_unfound : (k : Str) (l : EvictList) → find k (entries l) ≡ none → element_of k l ≡ none
element_of_unfound k [] h = refl
element_of_unfound k ((x, e) ∷ l) h = ground (arith, element_of_unfound k l)

find_head :
    (k : Str) (n : ℕ) (e : L1Entry) (l : List L1Entry)
    → 0 < n
    → e.key ≡ k
    → find k (take n (e ∷ l)) ≡ some e
find_head k zero e l h same = absurd (omega arith)
find_head k (suc n) e l h same = ground (arith, str_eq_iff e.key k)

some_owner :
    (fl : Float64) (key : Str) (r : Ring fl.Number)
    → IsSorted r.vnodes
    → (owner : Option Str) × (get_node fl key r ≡ some owner)
some_owner fl key r sorted = (_, get_node-placed fl key r sorted)

-- A cache that is valid, if the client has one.
abbrev pub IsCaching : {F : Type 0} → Client F → Type 0
IsCaching c = (l : L1Cache) → c.l1_cache ≡ some l → IsValid l

Reply-cases : {A : Type 0} (r : Reply A) → (r ≡ failed) ⊎ ((a : A) × (r ≡ answered a))
Reply-cases failed = inl refl
Reply-cases (answered a) = inr (a, refl)

valid_some : (l : L1Cache) → IsValid l → (m : L1Cache) → some l ≡ some m → IsValid m
valid_some l v m h = let same : l ≡ m = ground arith in subst (λ x. IsValid x) same v

missed :
    (now : ℕ) (key : Str) (l : L1Cache)
    → lookup key l.items ≡ none
    → L1Cache.get now key l ≡ some (l, none)
unfolding L1Cache.get
missed now key l h = rw (L1Cache.get, h) refl

-- A Get keeps the default time to live of the cache.
get-default_ttl :
    (now : ℕ) (key : Str) (l l' : L1Cache) (r : Option Str)
    → L1Cache.get now key l ≡ some (l', r)
    → l'.default_ttl ≡ l.default_ttl
unfolding L1Cache.get L1Cache.remove_element
get-default_ttl now key l l' r h = elim (Option-cases (lookup key l.items)) [
  | inl absent ↦ ground arith
  | inr (x, linked) ↦ elim (Option-cases (L1Cache.entry_of x l.evict_list)) [
    | inl lost ↦ ground arith
    | inr (e, held) ↦ elim (Bool-cases (ltb e.expires_at now)) [
      | inl gone ↦ ground arith
      | inr live ↦ ground arith
    ]
  ]
]

module _ {F : Type 0} (c : Client F) (key : Str) (caching : IsCaching c) where
  -- The client without the key in its L1 cache.
  l1_delete_lem :
      (cache : Option L1Cache) × (l1_delete key c ≡ some (record c { l1_cache = cache }))
      × IsCaching (record c { l1_cache = cache })
      × ((now : ℕ)
          → l1_get now key (record c { l1_cache = cache })
            ≡ some (record c { l1_cache = cache }, none))
  unfolding l1_delete l1_get
  l1_delete_lem = elim (Option-cases c.l1_cache) [
    | inl absent ↦ (c.l1_cache, ground arith, caching, λ now. ground arith)
    | inr (l, here) ↦
        let v = caching l here in
        let (l', gone, v', left) = delete-Refines l v key in
        let unfound : find key (entries l'.evict_list) ≡ none =
          ap (find key) left ∙ find_dropped key l.evict_list v.unique in
        let missing : lookup key l'.items ≡ none =
          v'.linked key ∙ element_of_unfound key l'.evict_list unfound in
        (
          some l',
          rw (here, gone) refl,
          valid_some l' v',
          λ now. rw (missed now key l' missing) refl,
        )
  ]

module _ (fl : Float64) (c : Client fl.Number) (key : Str) (v : IsValidRing c.ring) where
  -- A route is found, or a reason why there is none, without a panic.
  get_conn-some : (o : Outcome Str) × (get_conn fl key c ≡ some o)
  unfolding get_conn
  get_conn-some =
      let route_of : Option Str → Outcome Str = λ owner. elim owner [
        | none ↦ no_nodes
        | some node_id ↦ elim (lookup node_id c.conns) [
          | none ↦ no_connection node_id
          | some conn ↦ done conn
        ]
      ] in
      let (owner, found) = some_owner fl key c.ring v.sorted in
      (route_of owner, ap (λ o. o >>= λ owner. some (route_of owner)) found)

  routed :
      {A B : Type 0} (invoke : Str → Reply A) (f : A → B) (route : Outcome Str)
      → get_conn fl key c ≡ some route
      → (o : Outcome B) × (call_node fl key invoke (λ a c'. some (c', f a)) c ≡ some (c, o))
  unfolding call_node
  routed invoke f no_nodes found = (no_nodes, rw found refl)
  routed invoke f (no_connection n) found = (no_connection n, rw found refl)
  routed invoke f call_failed found = (call_failed, rw found refl)
  routed invoke f (done conn) found = elim (Reply-cases (invoke conn)) [
    | inl lost ↦ (call_failed, rw (found, call_node, lost) refl)
    | inr (a, replied) ↦ (done (f a), rw (found, call_node, replied) refl)
  ]

get_conn-cache :
    (fl : Float64) (c : Client fl.Number) (key : Str) (cache : Option L1Cache)
    → get_conn fl key (record c { l1_cache = cache }) ≡ get_conn fl key c
unfolding get_conn
get_conn-cache fl c key cache = refl

module _ (fl : Float64) (c : Client fl.Number) (key : Str) (caching : IsCaching c)
    (v : IsValidRing c.ring) where
  -- With a valid ring and a valid L1 cache, a Set or a Delete of a client ends without a panic,
  -- whatever becomes of its call, and the next Get of the key does not answer from the L1 cache: it
  -- is the call to the node of the key.
  pub get-remote_get :
      (put : Str → SetRequest → Reply SetResponse)
      (remove : Str → DeleteRequest → Reply DeleteResponse)
      (read : Str → GetRequest → Reply GetResponse) (value : Str) (ttl : ℤ) (now later : ℕ)
      → ((c' : Client fl.Number) × (o : Outcome Unit) × (set fl put key value ttl c ≡ some (c', o))
          × (get fl read now later key c' ≡ remote_get fl read later key c'))
        × ((c' : Client fl.Number) × (o : Outcome Bool) × (delete fl remove key c ≡ some (c', o))
            × (get fl read now later key c' ≡ remote_get fl read later key c'))
  unfolding set delete get
  get-remote_get put remove read value ttl now later =
      let (cache, gone, _, missing) = l1_delete_lem c key caching in
      let c' = record c { l1_cache = cache } in
      let (route, found) = get_conn-some fl c' key v in
      let (o₁, put_done) =
        routed fl c' key v
          (λ conn. put conn (record { key = key; value = value; ttl_ms = milliseconds ttl }))
          (λ resp. tt) route found in
      let (o₂, removed) =
        routed fl c' key v (λ conn. remove conn (record { key = key }))
          (λ (resp : DeleteResponse). resp.existed) route found in
      (
        (c', o₁, rw gone put_done, rw (missing now) refl),
        (c', o₂, rw gone removed, rw (missing now) refl),
      )

  -- After a Get that was answered by a node with a hot value, on a client with a valid L1 cache
  -- that had no entry of the key or an expired one, a Get of the key answers with the same value
  -- and without a call, as long as the time to live that came with the answer, or the default one
  -- if that is not positive, is not over.
  pub get-get_hot :
      (first second : Str → GetRequest → Reply GetResponse) (conn : Str) (resp : GetResponse)
      (now later now' later' : ℕ) (l : L1Cache)
      → c.l1_cache ≡ some l
      → read_of now (find key (entries l.evict_list)) ≡ none
      → get_conn fl key c ≡ some (done conn)
      → first conn (record { key = key }) ≡ answered resp
      → resp.found ≡ true
      → resp.is_hot ≡ true
      → now' ≤ later + positive_or (from_milliseconds resp.ttl_ms) l.default_ttl
      → (c' c'' : Client fl.Number) × (get fl first now later key c
          ≡ some (c', done (resp.value, true)))
        × (get fl second now' later' key c' ≡ some (c'', done (resp.value, true)))
  unfolding get remote_get call_node keep_hot l1_get l1_set
  get-get_hot first second conn resp now later now' later' l cached missing route answer found hot
        soon =
      let (l₀, looked, v₀, _) = get-Refines l (caching l cached) now key in
      let miss : L1Cache.get now key l ≡ some (l₀, none) =
        looked ∙ ap (λ r. some (l₀, r)) missing in
      let ttl = from_milliseconds resp.ttl_ms in
      let (l', kept, v', newest) = set-Refines l₀ v₀ key later resp.value ttl in
      let (l'', again, _, _) = get-Refines l' v' now' key in
      let entry : L1Entry = record {
        key = key;
        value = resp.value;
        expires_at = later + positive_or ttl l₀.default_ttl;
      } in
      let held : find key (entries l'.evict_list) ≡ some entry =
        ap (find key) newest
        ∙ find_head key l₀.capacity entry (drop_key key (entries l₀.evict_list)) v₀.roomy refl in
      let same : l₀.default_ttl ≡ l.default_ttl = get-default_ttl now key l l₀ none miss in
      let live : ltb entry.expires_at now' ≡ false = ground (arith, same) in
      let hit : L1Cache.get now' key l' ≡ some (l'', some resp.value) =
        again ∙ ap (λ r. some (l'', r)) (ap (read_of now') held ∙ (rw live refl)) in
      (
        record c { l1_cache = some l' },
        record c { l1_cache = some l'' },
        (rw (cached, miss, get_conn-cache fl c key (some l₀) ∙ route, answer, found, hot, kept)
            refl),
        (rw hit refl),
      )
