-- ===== src/Store/Scan/Visited.antt =====
-- internal/store/store.go: the entries that `ForEach` visits.
use distributed_cache_system.Prelude.{
  ℕ, zero, suc, ◌≡◌, ap, ◌∙◌, false, Bool-cases, Option-cases, inl, inr, some, List, [], ◌∷◌, Str,
  str_eq, str_eq_iff, arith, get_elem?, Has, Has-append_left, Has-append_right,
}
use distributed_cache_system.Prelude.Assoc.{Map, lookup}
use distributed_cache_system.Store.{Entry, Shard, Store, is_expired, shard_index, get_shard}
use distributed_cache_system.Store.Scan.{remaining_ttl}
use distributed_cache_system.Store.Scan.Listed.{Visit, visits_of, visits_in}
use distributed_cache_system.Store.Valid.{view}

-- A live entry is among the visits of a walk.
module _ (now : ℕ) (k : Str) (e : Entry) (live : is_expired now e ≡ false) where
  abbrev pub visit : Visit
  visit = (k, e.value, remaining_ttl now e)

  visits_of-Has : (m : Map Entry) → lookup k m ≡ some e → Has visit (visits_of now m)
  unfolding visits_of lookup
  visits_of-Has [] h = ground arith
  visits_of-Has ((j, w) ∷ m) h = elim (Bool-cases (str_eq j k)) [
    | inl same ↦
        let found : w ≡ e = ground arith in
        rw (ap (is_expired now) found ∙ live) (
          inl (
            ap (λ x. (x, w.value, remaining_ttl now w)) ((str_eq_iff j k).0 same)
            ∙ ap (λ (x : Entry). (k, x.value, remaining_ttl now x)) found))
    | inr differ ↦
        let rest = visits_of-Has m (ground arith) in
        elim (Bool-cases (is_expired now w)) [
          | inl gone ↦ rw gone rest
          | inr held ↦ rw held (inr rest)
        ]
  ]

  visits_in-Has :
      (shs : List Shard) (i : ℕ) (sh : Shard)
      → get_elem? shs i ≡ some sh
      → lookup k sh.items ≡ some e
      → Has visit (visits_in now shs)
  unfolding visits_in
  visits_in-Has [] i sh at h = ground arith
  visits_in-Has (s ∷ shs) zero sh at h =
      let same : s ≡ sh = ground arith in
      Has-append_left visit (visits_of now s.items) (visits_in now shs)
        (visits_of-Has s.items (ap (λ (x : Shard). lookup k x.items) same ∙ h))
  visits_in-Has (s ∷ shs) (suc i) sh at h =
      Has-append_right visit (visits_of now s.items) (visits_in now shs)
        (visits_in-Has shs i sh at h)

  pub view-Has : (s : Store) → view s k ≡ some e → Has visit (visits_in now s.shards)
  unfolding view get_shard
  view-Has s h = elim (Option-cases (get_elem? s.shards (shard_index s k))) [
    | inl missing ↦ ground arith
    | inr (sh, found) ↦ visits_in-Has s.shards (shard_index s k) sh found (ground arith)
  ]
