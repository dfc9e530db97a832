-- ===== src/Lib.antt =====
-- A distributed cache: every node keeps a sharded key-value store with expiry times, finds the
-- owners of a key on a hash ring, learns of the other nodes by SWIM gossip, and copies hot keys.
-- A client keeps a small cache of its own.
--
-- Store (internal/store/store.go): shards of maps from keys to entries. `Store.Valid` says what a
--   store satisfies and defines its view, one map from keys to entries; `Store.Methods` and
--   `Store.Reads` relate Get, Set, Delete and Expire to the view; `Store.Create` is about
--   NewWithShards; `Store.Scan` models Keys, Len, ForEach and ShardStats.
-- Sweeper (internal/store/ttl.go): the background expiry of one shard after the other.
--   `Sweeper.Sampling` is about one pass, `Sweeper.Rounds` about the rounds on a shard.
-- Sketch and Detector (internal/hotkey/detector.go): the Count-Min sketch and the detector of hot
--   keys over it. `Sketch.Bounds` relates the sketch to exact counters, `Sketch.Stream` does so for
--   histories.
-- Mitigator (internal/hotkey/mitigator.go): copies of a hot key under shard names, in the store.
-- L1Cache (client/l1cache.go): the list of elements and the map. `L1Cache.Links` relates the two
--   to one list of entries; `L1Cache.Refines` and `L1Cache.Writes` say what the methods do to it.
-- Ring (internal/hashing/ring.go): virtual nodes sorted by hash. `Ring.Search` is about the binary
--   search, `Ring.Walk` and `Ring.Owners` about the walk from a key, `Ring.Valid` about AddNode and
--   RemoveNode, `Ring.Failover` about GetNodes, `Ring.Placement` about GetNode.
-- Chaos (internal/chaos/faultinjector.go): injected faults; the membership drops traffic with peers
--   that are cut off, and calls pass the interceptors. `Chaos.Endpoints` (internal/chaos/endpoints.go)
--   is the HTTP handlers that inject them.
-- Proto (api/proto/messages.go): requests and responses.
-- Cluster.Node (internal/cluster/node.go): nodes and the registry.
-- Cluster.Membership (internal/cluster/membership.go): `Transitions` has the changes of a node's
--   status, `Messages` the handlers and probes; `Queue` and `Dissemination` are about the updates
--   that ride on messages, `Updates` about the registry, `Suspicion` and `Probes` about timers,
--   `Race` about an alive report and the probe loop at the same time, `Refutation` about this node's
--   answer to a suspicion.
-- Cluster.Replication (internal/cluster/replication.go): the sends that a write starts; the ring and
--   the store are arguments. `Primary` is about the primary of a key, `Writes` about the sends,
--   `Repair` about the failure of a node, `Shutdown` about events and Close.
-- Server (internal/server/grpc_server.go): the handlers Get, Set, Delete and Expire over store, ring,
--   mitigator and replication; `Server.Peers` has Keys, Ping, Replicate and TransferKeys. `Loads` is
--   about IncrementLoad and DecrementLoad around a handler, `Routing` about requests that are passed
--   on, `Ready` says what a running server satisfies, `Reads`, `Writes` and `Renewals` are about the
--   handlers, `Copies` and `Replicas` about Replicate, `Transfer` about TransferKeys; `Serving` says
--   what the server keeps from one request to the next, `Requests` runs it through any sequence.
-- Service (internal/server/service.go): decoding and interceptors around a handler; `Refusal` is
--   about a node that is failed.
-- HttpServer (internal/server/http_server.go): the admin endpoints.
-- Client (client/client.go): the client over its ring, its connections and the L1 cache; `Client.Hot`
--   is about the L1 cache in its operations.
-- CacheNode (cmd/cachenode/main.go): the callbacks that pass a membership event to the ring and from
--   the ring to replication; `CacheNode.Failure` is about a node that has died or left,
--   `CacheNode.Peers` and `CacheNode.Steps` about the peers that an event changes,
--   `CacheNode.Running` about a node from its start on, `CacheNode.Configured` about its numbers.
-- Config (config/config.go): the configuration; what the YAML decoder makes of a file is an argument.
-- Hash (the standard library's FNV-1a, from its published definition): the hash of shards, rows and
--   virtual nodes. No theorem depends on the values it gives.
-- Prelude: the shared names, Boolean tests, lists over native numbers, texts, durations, and maps as
--   association lists.
-- Tests: concrete runs that meet the conditions of the theorems.
--
-- A text is the list of its bytes. A time is a number of nanoseconds, and a function takes the
-- values of its clock calls as arguments. `none` as the result of an operation is a run-time
-- panic. Unsigned integers wrap by `% 2 ^ w`. Locks are left out. Where a function lets go of a
-- lock or waits, and it matters to a theorem, what other goroutines do meanwhile is an argument
-- of the model: between the two looks of `Store.get`, between the rounds of a sweep, in the
-- middle of an alive report (`apply_alive`), and during the waits of the probes. Every other
-- function runs without interruption, the other branches of an update of the membership included.
-- The order of a walk over a Go map is that of the association list.
--
-- Fuel: the rounding of a shard count has fuel 62, enough for counts up to 2^62 (for a larger one
-- the loop of the source never ends); a sweep has fuel for one round more than there are entries
-- and entries that others add; the bisection of the ring has fuel for every virtual node.
--
-- Not modelled: the JSON codec (api/proto/codec.go), the start and stop of the parts in
-- cmd/cachenode/main.go, and the test commands (cmd/client, cmd/loadtest, cmd/pingtest,
-- cmd/hotkeytest). Sockets are the messages sent, in order; a connection is an address,
-- and what a call through it answers is a parameter; goroutines are the functions they call, and a
-- handler of the server runs without interruption. Random draws, the shuffle, the sorts and
-- floating-point numbers are parameters.
pub mod Prelude
pub mod Hash
pub mod Store
pub mod Sweeper
pub mod Sketch
pub mod Detector
pub mod Mitigator
pub mod L1Cache
pub mod Ring
pub mod Chaos
pub mod Proto
pub mod Cluster
pub mod Server
pub mod Service
pub mod HttpServer
pub mod Client
pub mod Config
pub mod CacheNode
pub mod Tests
