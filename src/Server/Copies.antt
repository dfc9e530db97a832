-- ===== src/Server/Copies.antt =====
-- internal/server/grpc_server.go: what Replicate does at the replicas of a key.
use distributed_cache_system.Prelude.{ℕ, ◌≡◌, refl, inl, inr, ◌⊎◌, true, Option, none, some, ℤ}
use distributed_cache_system.Proto.{ReplicateRequest, Operation, op_set, op_delete, op_other}
use distributed_cache_system.Server.{CacheServer, answered, ttl_of}
use distributed_cache_system.Server.Peers.{replicate}
use distributed_cache_system.Server.Loads.{acts}
use distributed_cache_system.Store.{Entry, Store, expiry}
use distributed_cache_system.Store.Methods.{Updates, keep-Leaves, set-Leaves, delete-Leaves}
use distributed_cache_system.Store.Valid.{IsValid, view}

Operation-cases :
    (op : Operation) → (op ≡ op_set) ⊎ ((op ≡ op_delete) ⊎ ((n : ℤ) × (op ≡ op_other n)))
Operation-cases op_set = inl refl
Operation-cases op_delete = inr (inl refl)
Operation-cases (op_other n) = inr (inr (n, refl))

-- What a request writes under its key in the view of a store; other operations write nothing.
abbrev pub written : ℕ → ℕ → ReplicateRequest → Option Entry → Option Entry
written now later req old = elim req.op [
  | op_set ↦ some (record {
    value = req.value;
    expires_at = expiry later (ttl_of req.ttl_ms);
    created_at = now;
  })
  | op_delete ↦ none
  | op_other n ↦ old
]

module _ {F : Type 0} where
  -- Replicate on a server with a valid store does not panic and reports success; a write leaves the
  -- value under the key, a deletion removes the key, another operation does nothing, and the rest
  -- of the server stays as it was. The sequence number and the sender are not looked at.
  pub replicate-Updates :
      (clock : ℕ → ℕ) (req : ReplicateRequest) (cs : CacheServer F)
      → IsValid cs.store
      → (s : Store) × (replicate clock req cs
          ≡ some (
            acts cs s cs.replication_mgr cs.hot_key_mitigator,
            answered (record { success = true }),
          ))
        × IsValid s
        × Updates cs.store req.key (written (clock 0) (clock 1) req (view cs.store req.key)) s
  unfolding replicate
  replicate-Updates clock req cs v = elim (Operation-cases req.op) [
    | inl is_set ↦
        let (s, stored, l) =
          set-Leaves cs.store req.key v (clock 0) (clock 1) req.value (ttl_of req.ttl_ms) in
        (s, rw (is_set, stored) refl, l.valid, rw is_set l.updates)
    | inr (inl is_delete) ↦
        let (s, gone, l) = delete-Leaves cs.store req.key v in
        (s, rw (is_delete, gone) refl, l.valid, rw is_delete l.updates)
    | inr (inr (n, is_other)) ↦ (
      cs.store,
      rw is_other refl,
      v,
      rw is_other
          (keep-Leaves cs.store req.key v (view cs.store req.key) cs.store.stats refl).updates,
    )
  ]
