-- ===== src/Server/Loads.antt =====
-- internal/server/grpc_server.go: the load of the node, which is raised while a handler runs.
use distributed_cache_system.Prelude.{
  ℕ, ◌+◌, ◌-◌, ◌%◌, ◌<◌, ◌≡◌, refl, ap, ◌∙◌, inl, inr, Bool-cases, Option-cases, Option, some, [],
  ◌∷◌, Str, str_eq_iff, str_eq_refl, arith, if◌then◌else◌, u64_mod,
}
use distributed_cache_system.Prelude.Assoc.{Map, lookup, insert, lookup-insert_self}
use distributed_cache_system.Cluster.Replication.{ReplicationManager, ◌>>=◌}
use distributed_cache_system.Mitigator.{Mitigator}
use distributed_cache_system.Ring.{Ring, increment_load, decrement_load}
use distributed_cache_system.Server.{CacheServer, begin_call, end_call, with_load}
use distributed_cache_system.Store.{Store}

module _ {F : Type 0} where
  -- What a handler changes apart from the loads.
  abbrev pub acts :
      CacheServer F → Store → Option ReplicationManager → Option Mitigator → CacheServer F
  acts cs s rm m = record cs { store = s; replication_mgr = rm; hot_key_mitigator = m }

  -- A server whose ring counts other loads.
  abbrev pub relabel : Map ℕ → CacheServer F → CacheServer F
  relabel loads cs = record cs { ring = record cs.ring { loads = loads } }

  -- The load of the node is an `int64` pattern.
  abbrev pub IsCounted : CacheServer F → Type 0
  IsCounted cs = (l : ℕ) → lookup cs.node_id cs.ring.loads ≡ some l → l < u64_mod

insert_twice :
    {V : Type 0} (k : Str) (v w : V) (m : Map V) → insert k v (insert k w m) ≡ insert k v m
unfolding insert
insert_twice k v w [] = ground (arith, str_eq_refl k)
insert_twice k v w ((j, u) ∷ m) =
    ground (arith, insert_twice k v w m, str_eq_iff j k, str_eq_refl k)

insert_same : {V : Type 0} (k : Str) (v : V) (m : Map V) → lookup k m ≡ some v → insert k v m ≡ m
unfolding insert lookup
insert_same k v [] h = ground arith
insert_same k v ((j, u) ∷ m) h = ground (arith, insert_same k v m, str_eq_iff j k)

back_again : (l : ℕ) → l < u64_mod → ((l + 1) % u64_mod + u64_mod - 1) % u64_mod ≡ l
back_again l h = omega arith

abbrev counting : {F : Type 0} → Map ℕ → Ring F → Ring F
counting loads r = record r { loads = loads }

loads_back :
    {F : Type 0} (x : Str) (r : Ring F)
    → ((l : ℕ) → lookup x r.loads ≡ some l → l < u64_mod)
    → (loads : Map ℕ) × (increment_load x r ≡ counting loads r)
      × (decrement_load x (counting loads r) ≡ r)
unfolding increment_load decrement_load
loads_back x r small = elim (Option-cases (lookup x r.loads)) [
  | inl absent ↦ (r.loads, rw (absent, increment_load) refl, rw (absent, decrement_load) refl)
  | inr (l, here) ↦
      let up = (l + 1) % u64_mod in
      let down = (up + u64_mod - 1) % u64_mod in
      let path : insert x down (insert x up r.loads) ≡ r.loads =
        insert_twice x down up r.loads
        ∙ ap (λ n. insert x n r.loads) (back_again l (small l here))
        ∙ insert_same x l r.loads here in
      (
        insert x up r.loads,
        rw (here, increment_load) refl,
        rw (lookup-insert_self x up r.loads, decrement_load) (ap (λ loads. counting loads r) path),
      )
]

module _ {F : Type 0} (cs : CacheServer F) (counted : IsCounted cs) where
  begin-end :
      (loads : Map ℕ) × (begin_call cs ≡ relabel loads cs)
      × ((s : Store) (rm : Option ReplicationManager) (m : Option Mitigator)
          → end_call (acts (relabel loads cs) s rm m) ≡ acts cs s rm m)
  unfolding begin_call end_call
  begin-end = elim (Bool-cases cs.counts_loads) [
    | inr skipped ↦ (cs.ring.loads, rw skipped refl, λ s rm m. rw skipped refl)
    | inl counts ↦
        let (loads, up, down) = loads_back cs.node_id cs.ring counted in
        (
          loads,
          rw (counts, up) refl,
          λ s rm m.
              let kept : CacheServer F = acts (relabel loads cs) s rm m in
              ap
                (λ b.
                  if b then record kept { ring = decrement_load cs.node_id kept.ring } else kept)
                counts
              ∙ ap (λ r. record (acts cs s rm m) { ring = r }) down,
        )
  ]

  -- A handler that leaves the ring alone leaves the loads as they were.
  pub with_load-acts :
      {A : Type 0} (body : CacheServer F → Option (CacheServer F × A)) (s : Store)
      (rm : Option ReplicationManager) (m : Option Mitigator) (a : A)
      → ((loads : Map ℕ) → body (relabel loads cs) ≡ some (acts (relabel loads cs) s rm m, a))
      → with_load body cs ≡ some (acts cs s rm m, a)
  unfolding with_load
  with_load-acts {A = A} body s rm m a h =
      let (loads, start, stop) = begin-end in
      ap (λ c. body c >>= λ (x : CacheServer F × A). some (end_call x.0, x.1)) start
      ∙ ap (λ o. o >>= λ (x : CacheServer F × A). some (end_call x.0, x.1)) (h loads)
      ∙ ap (λ c. some (c, a)) (stop s rm m)
