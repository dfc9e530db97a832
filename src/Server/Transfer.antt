-- ===== src/Server/Transfer.antt =====
-- internal/server/grpc_server.go: the pairs that TransferKeys streams.
use distributed_cache_system.Prelude.{
  ℕ, ◌≡◌, refl, sym, ap, ◌∙◌, inl, inr, Bool, true, false, Bool-cases, some, List, [], ◌∷◌, ◌++◌,
  map, Str, arith, pos, Has, Has-map,
}
use mathlib.Core.Path.{subst}
use mathlib.Core.List.{append_assoc, append-nil}
use distributed_cache_system.Prelude.Duration.{milliseconds}
use distributed_cache_system.Store.Scan.Visited.{visit, view-Has}
use distributed_cache_system.Proto.{TransferKeysRequest, KeyValuePair}
use distributed_cache_system.Server.{CacheServer, answered}
use distributed_cache_system.Server.Peers.{send_pair, transfer_keys}
use distributed_cache_system.Store.{Entry, is_expired}
use distributed_cache_system.Store.Scan.{remaining_ttl}
use distributed_cache_system.Store.Scan.Listed.{Visit, visits_in, visit_all, for_each-visit_all}
use distributed_cache_system.Store.Valid.{view}

-- The pair of a visited entry.
abbrev pub pair_of : Visit → KeyValuePair
pair_of v = record { key = v.0; value = v.1; ttl_ms = milliseconds (pos v.2) }

module _ (send : List KeyValuePair → KeyValuePair → Bool) where
  -- A stream that ended because everything was sent, or at the first pair that could not be sent.
  abbrev pub EndsAt : List KeyValuePair → List KeyValuePair → Type 0
  EndsAt sent [] = Unit
  EndsAt sent (kv ∷ rest) = send sent kv ≡ false

  all_sent :
      (sent rest : List KeyValuePair)
      → ((l : List KeyValuePair) (kv : KeyValuePair) → send l kv ≡ true)
      → EndsAt sent rest
      → rest ≡ []
  all_sent sent [] all stop = refl
  all_sent sent (kv ∷ rest) all stop = ground (arith, all sent kv)

  streamed :
      (vs : List Visit) (before : List KeyValuePair)
      → (sent rest : List KeyValuePair) × ((visit_all (send_pair send) vs before).0
          ≡ before ++ sent)
        × (map pair_of vs ≡ sent ++ rest)
        × EndsAt (before ++ sent) rest
  unfolding visit_all send_pair
  streamed [] before = ([], [], sym (append-nil before), refl, tt)
  streamed (v ∷ vs) before = elim (Bool-cases (send before (pair_of v))) [
    | inr failed ↦ (
      [],
      map pair_of (v ∷ vs),
      rw failed (sym (append-nil before)),
      refl,
      rw (append-nil before) failed,
    )
    | inl passed ↦
        let (sent, rest, run, split, stop) = streamed vs (before ++ pair_of v ∷ []) in
        let path = append_assoc before (pair_of v ∷ []) sent in
        (
          pair_of v ∷ sent,
          rest,
          rw passed (run ∙ path),
          ap (λ l. pair_of v ∷ l) split,
          subst (λ l. EndsAt l rest) path stop,
        )
  ]

  -- TransferKeys sends the entries that have not expired with their remaining times to live, in the
  -- order of the walk, up to the first that cannot be sent, and reports no error either way; if
  -- every send succeeds, each live entry of the store is sent. The requested range plays no part.
  pub transfer_keys-streamed :
      {F : Type 0} (now : ℕ) (req : TransferKeysRequest) (cs : CacheServer F)
      → (sent rest : List KeyValuePair) × (transfer_keys send now req cs ≡ (sent, answered tt))
        × (map pair_of (visits_in now cs.store.shards) ≡ sent ++ rest)
        × EndsAt sent rest
        × (((l : List KeyValuePair) (kv : KeyValuePair) → send l kv ≡ true)
            → (k : Str) (e : Entry) → view cs.store k ≡ some e
            → is_expired now e ≡ false
            → Has (pair_of (k, e.value, remaining_ttl now e)) sent)
  unfolding transfer_keys
  transfer_keys-streamed now req cs =
      let (sent, rest, run, split, stop) = streamed (visits_in now cs.store.shards) [] in
      (
        sent,
        rest,
        ap (λ l. (l, answered tt)) (for_each-visit_all (send_pair send) now cs.store [] ∙ run),
        split,
        stop,
        λ all k e held live.
            let done : rest ≡ [] = all_sent sent rest all stop in
            let path : map pair_of (visits_in now cs.store.shards) ≡ sent =
              split ∙ ap (λ l. sent ++ l) done ∙ append-nil sent in
            subst (λ l. Has (pair_of (visit now k e live)) l) path
              (Has-map pair_of (visit now k e live) (visits_in now cs.store.shards)
                (view-Has now k e live cs.store held)),
      )
