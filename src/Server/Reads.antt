-- ===== src/Server/Reads.antt =====
-- internal/server/grpc_server.go: what a Get answers.
use distributed_cache_system.Prelude.{
  ℕ, suc, ◌+◌, ◌%◌, ◌≡◌, refl, inl, inr, Bool, true, false, Bool-cases, Option-cases, Option, none,
  some, [], Str, str_eq, leb, arith, if◌then◌else◌, pos, u64_mod,
}
use distributed_cache_system.Prelude.Assoc.{Map, lookup, insert}
use distributed_cache_system.Cluster.Replication.{◌>>=◌, is_replica}
use distributed_cache_system.Detector.{Detector, record_access}
use distributed_cache_system.Mitigator.{Mitigator, check_and_mitigate, apply_splitting, key_split}
use distributed_cache_system.Mitigator.Copies.{set_shards-Holds}
use distributed_cache_system.Proto.{GetRequest, GetResponse}
use distributed_cache_system.Server.{
  CacheServer, Reply, answered, check_hot, get_here, get, proxy_conn,
}
use distributed_cache_system.Server.Loads.{acts, relabel}
use distributed_cache_system.Server.Ready.{
  IsReady, IsServing, IsWatching, Watched, Watched-some, less_room,
}
use distributed_cache_system.Server.Routing.{handled_here, proxy_conn-replica}
use distributed_cache_system.Sketch.Bounds.{increment-Tracks, estimate_bounds}
use distributed_cache_system.Store.{Store}
use distributed_cache_system.Store.Methods.{purged}
use distributed_cache_system.Store.Reads.{get-Leaves, value_of}
use distributed_cache_system.Store.Valid.{IsValid, view}

-- Counting an access of a key does not panic, and uses room for one.
record_access_lem :
    (n : ℕ) (key : Str) (m : Mitigator)
    → IsWatching (suc n) m.shard_count m.detector.sketch
    → (d : Detector) × (hot : Bool) × (record_access key m.detector ≡ some (d, hot))
      × IsWatching n m.shard_count d.sketch
unfolding record_access
record_access_lem n key m w =
    let (cms, counted, t, total) =
      increment-Tracks w.accesses key m.detector.sketch w.tracks (omega (arith, w.roomy)) in
    let accesses : Str → ℕ = λ q. if str_eq key q then w.accesses q + 1 else w.accesses q in
    let (e, read, _, _) = estimate_bounds accesses key cms t (omega (arith, w.roomy, total)) in
    (
      record m.detector { sketch = cms },
      leb m.detector.hot_threshold e,
      rw (record_access, counted, read) refl,
      record {
        sharded = w.sharded;
        small = w.small;
        accesses = accesses;
        tracks = t;
        roomy = omega (arith, w.roomy, total);
      },
    )

apply_splitting-IsValid :
    (clock : ℕ → ℕ) (now later : ℕ) (key : Str) (n : ℕ) (s : Store)
    → IsValid s
    → (s' : Store) × (apply_splitting clock now later key n s ≡ some s') × IsValid s'
unfolding apply_splitting
apply_splitting-IsValid clock now later key n s v =
    let (s₁, read, l) = get-Leaves s key v (λ x. x) now later v in
    elim (Option-cases (value_of (purged now (view s key)))) [
      | inl absent ↦ (s₁, rw (read, ◌>>=◌, absent) refl, l.valid)
      | inr (value, here) ↦
          let (s₂, done, v₂, _, _) = set_shards-Holds key value (pos 0) clock n 0 s₁ l.valid in
          (s₂, rw (read, ◌>>=◌, here) done, v₂)
    ]

check_and_mitigate-IsValid :
    (n : ℕ) (clock : ℕ → ℕ) (now later : ℕ) (key : Str) (m : Mitigator)
    → IsWatching (suc n) m.shard_count m.detector.sketch
    → IsValid m.store
    → (m' : Mitigator) × (hot : Bool) × (check_and_mitigate clock now later key m ≡ some (m', hot))
      × IsValid m'.store
      × IsWatching n m'.shard_count m'.detector.sketch
unfolding check_and_mitigate
check_and_mitigate-IsValid n clock now later key m w v =
    let (d, hot, accessed, left) = record_access_lem n key m w in
    elim (Bool-cases hot) [
      | inr cold ↦ (record m { detector = d }, false, rw (accessed, ◌>>=◌, cold) refl, v, left)
      | inl warm ↦ elim (Option-cases (lookup key m.mitigated_keys)) [
        | inr (_, known) ↦ (record m { detector = d }, true, ground (arith, accessed), v, left)
        | inl fresh ↦
            let (s, split, v') =
              apply_splitting-IsValid clock now later key m.shard_count m.store v in
            (
              record m {
                store = s;
                detector = d;
                mitigated_keys = insert key key_split m.mitigated_keys;
                mitigation_count = (m.mitigation_count + 1) % u64_mod;
              },
              true,
              ground (arith, accessed, split),
              v',
              left,
            )
      ]
    ]

-- What a Get answers for a value that may be there.
abbrev pub answer : Str → Option Str → Bool → Reply GetResponse
answer key none hot =
    answered (record { key = key; value = []; found = false; ttl_ms = pos 0; is_hot = false })
answer key (some value) hot =
    answered (record { key = key; value = value; found = true; ttl_ms = pos 0; is_hot = hot })

module _ {F : Type 0} (n : ℕ) (cs : CacheServer F) (ready : IsServing (suc n) cs) where
  check_hot_lem :
      (clock : ℕ → ℕ) (now later : ℕ) (key : Str) (s : Store)
      → IsValid s
      → (s' : Store) × (m : Option Mitigator) × (hot : Bool) × IsValid s'
        × Watched n m
        × ((loads : Map ℕ)
            → check_hot clock now later key (record (relabel loads cs) { store = s })
              ≡ some (acts (relabel loads cs) s' cs.replication_mgr m, hot))
  unfolding check_hot
  check_hot_lem clock now later key s v = elim (Option-cases cs.hot_key_mitigator) [
    | inl absent ↦ (s, none, false, v, tt, λ loads. rw absent refl)
    | inr (m, here) ↦
        let (m', hot, done, v', left) =
          check_and_mitigate-IsValid n clock now later key (record m { store = s })
            (ready.watched m here) v in
        (m'.store, some m', hot, v', left, λ loads. rw (here, done) refl)
  ]

  pub get_here_lem :
      (clock : ℕ → ℕ) (req : GetRequest)
      → (s : Store) × (m : Option Mitigator) × (hot : Bool) × IsValid s
        × ((w : Mitigator) → m ≡ some w → IsWatching n w.shard_count w.detector.sketch)
        × ((loads : Map ℕ)
            → get_here clock req (relabel loads cs)
              ≡ some (
                acts (relabel loads cs) s cs.replication_mgr m,
                answer req.key (value_of (purged (clock 0) (view cs.store req.key))) hot,
              ))
  unfolding get_here
  get_here_lem clock req =
      let (s, read, l) =
        get-Leaves cs.store req.key ready.stored (λ x. x) (clock 0) (clock 1) ready.stored in
      elim (Option-cases (value_of (purged (clock 0) (view cs.store req.key)))) [
        | inl absent ↦ (
          s,
          cs.hot_key_mitigator,
          false,
          l.valid,
          λ w h. less_room n w.shard_count w.detector.sketch (ready.watched w h),
          λ loads. rw (read, ◌>>=◌, absent) refl,
        )
        | inr (value, here) ↦
            let (s', m, hot, v, left, done) =
              check_hot_lem (λ i. clock (i + 4)) (clock 2) (clock 3) req.key s l.valid in
            (s', m, hot, v, Watched-some n m left, λ loads. rw (read, ◌>>=◌, here, done loads) refl)
      ]

module _ {F : Type 0} (cs : CacheServer F) (ready : IsReady cs) where
  -- Get on a ready server that serves the key, or knows no connection to its primary, whatever its
  -- load and whether or not the key is split, does not panic, answers with the value of a live
  -- entry of the key itself in its store and says that there is none otherwise, keeps the store
  -- valid and leaves the ring with its loads and the replication as they were.
  pub get-answer :
      (invoke : Str → GetRequest → Reply GetResponse) (clock : ℕ → ℕ) (req : GetRequest)
      → proxy_conn is_replica req.key cs ≡ some none
      → (s : Store) × (m : Option Mitigator) × (hot : Bool) × IsValid s
        × (get invoke clock req cs
            ≡ some (
              acts cs s cs.replication_mgr m,
              answer req.key (value_of (purged (clock 0) (view cs.store req.key))) hot,
            ))
  unfolding get
  get-answer invoke clock req local =
      let (s, m, hot, v, _, run) = get_here_lem 0 cs ready clock req in
      (
        s,
        m,
        hot,
        v,
        handled_here cs ready.counted is_replica req.key (λ c. invoke c req) (get_here clock req)
            (λ loads. proxy_conn-replica loads req.key cs) s cs.replication_mgr m _ local run,
      )
