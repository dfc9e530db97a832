-- ===== src/Cluster/Replication/Shutdown.antt =====
-- internal/cluster/replication.go: the events of sent requests, and the closing of their channel.
use distributed_cache_system.Prelude.{
  ℕ, ◌≤◌, ◌≡◌, refl, inl, inr, Bool, true, false, Bool-cases, none, some, [], ◌∷◌, ◌++◌, Str, arith,
  length, length-append, ltb,
}
use distributed_cache_system.Cluster.Replication.{
  ReplicationManager, ReplicationEvent, event_capacity, emit_event, send_replicate, close,
}
use distributed_cache_system.Proto.{ReplicateRequest}

emit_event-bounded :
    (event : ReplicationEvent) (rm : ReplicationManager)
    → rm.events_closed ≡ false
    → length rm.replication_events ≤ event_capacity
    → (rm' : ReplicationManager) × (emit_event event rm ≡ some rm')
      × (length rm'.replication_events ≤ event_capacity)
unfolding emit_event
emit_event-bounded event rm open_still small =
    elim (Bool-cases (ltb (length rm.replication_events) event_capacity)) [
      | inl room ↦
          let short : length rm.replication_events ≤ 999 = ground arith in
          (
            record rm { replication_events = rm.replication_events ++ event ∷ [] },
            rw (open_still, room) refl,
            omega (arith, length-append rm.replication_events (event ∷ []), short),
          )
      | inr full ↦ (rm, rw (open_still, full) refl, small)
    ]

-- Once Close has run, every send that is still to run panics, whatever its request and whether or
-- not the call succeeds, and so does a second Close; before it, no send panics, and at most 1000
-- events wait.
pub send_replicate-close :
    (answers : Str → ReplicateRequest → Bool) (now : ℕ) (node_id : Str) (req : ReplicateRequest)
    (rm rm' : ReplicationManager)
    → close rm ≡ some rm'
    → length rm.replication_events ≤ event_capacity
    → (close rm' ≡ none)
      × (send_replicate answers now node_id req rm' ≡ none)
      × ((rm₁ : ReplicationManager) × (send_replicate answers now node_id req rm ≡ some rm₁)
          × (length rm₁.replication_events ≤ event_capacity))
unfolding close send_replicate
send_replicate-close answers now node_id req rm rm' closing small =
    elim (Bool-cases rm.events_closed) [
      | inl already ↦ ground (arith)
      | inr before ↦
          let closed : rm'.events_closed ≡ true = ground arith in
          (
            rw closed refl,
            unfold emit_event in rw closed refl,
            emit_event-bounded _ rm before small,
          )
    ]
