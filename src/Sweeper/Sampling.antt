-- ===== src/Sweeper/Sampling.antt =====
-- internal/store/ttl.go: one sampling pass, its draws and what it removes.
use distributed_cache_system.Prelude.{
  ℕ, zero, suc, ◌+◌, ◌-◌, ◌≤◌, ◌<◌, ◌≡◌, ◌≢◌, refl, sym, ap, ◌∙◌, ◌⊎◌, inl, inr, Bool, true, false,
  Bool-cases, Option-cases, Option, none, some, List, [], ◌∷◌, Str, str_eq, str_eq_iff,
  if◌then◌else◌, ◌==◌, arith, length, get_elem?, set, get_elem?-set, get_elem?-some, length-set,
}
use distributed_cache_system.Prelude.Assoc
use distributed_cache_system.Prelude.Assoc.{
  Map, lookup, Distinct, lookup-delete, length-delete, delete-Distinct,
}
use distributed_cache_system.Store.{Entry, StoreStats, is_expired, inc_expirations}
use distributed_cache_system.Sweeper.{Pass, swap, sample_at, sample_loop, keys_of}

abbrev pub expired : ℕ → Option Entry → Bool
expired now none = false
expired now (some e) = is_expired now e

-- Where an element stood before two positions were swapped.
abbrev before_swap : ℕ → ℕ → ℕ → ℕ
before_swap i r j = if r == j then i else if i == j then r else j

swap_lem :
    (keys : List Str) (i r : ℕ)
    → i < length keys
    → r < length keys
    → (keys' : List Str) × (swap keys i r ≡ some keys')
      × (length keys' ≡ length keys)
      × ((j : ℕ) → get_elem? keys' j ≡ get_elem? keys (before_swap i r j))
unfolding swap
swap_lem keys i r hi hr =
    let (a, at_i) = get_elem?-some keys i hi in
    let (b, at_r) = get_elem?-some keys r hr in
    let inner = set keys i b in
    (
      set inner r a,
      rw (swap, at_i, at_r) refl,
      rw (length-set inner r a, length-set keys i b) refl,
      λ j. ground (
        arith,
        get_elem?-set inner r j a (rw (length-set keys i b) hr),
        get_elem?-set keys i j b hi,
        at_i,
        at_r,
      ),
    )

-- From sample `i` on, the positions hold different keys that are in the map.
pub record Ready (i : ℕ) (p : Pass) : Type 0 where
  pub distinct : Distinct p.items
  pub inside : (j : ℕ) (k : Str) → i ≤ j → get_elem? p.keys j ≡ some k → lookup k p.items ≢ none
  pub apart :
      (j j' : ℕ) (k : Str) → get_elem? p.keys j ≡ some k → get_elem? p.keys j' ≡ some k → j ≡ j'

-- The entries that are gone had expired, the others are as they were, and the count tells how many
-- are gone.
pub record Purges (now : ℕ) (p p' : Pass) : Type 0 where
  pub entries :
      (q : Str)
      → (lookup q p'.items ≡ lookup q p.items)
        ⊎ ((lookup q p'.items ≡ none) × (expired now (lookup q p.items) ≡ true))
  pub counted : p'.expired_count + length p'.items ≡ p.expired_count + length p.items
  pub distinct : Distinct p'.items

swap-Ready :
    (p : Pass) (i r : ℕ) (keys' : List Str)
    → i ≤ r
    → ((j : ℕ) → get_elem? keys' j ≡ get_elem? p.keys (before_swap i r j))
    → Ready i p
    → Ready i (record p { keys = keys' })
swap-Ready p i r keys' h moved ready = record {
  distinct = ready.distinct;
  inside = λ j k low at. ready.inside (before_swap i r j) k (ground arith) (sym (moved j) ∙ at);
  apart = λ j j' k at at'.
      let same =
        ready.apart (before_swap i r j) (before_swap i r j') k (sym (moved j) ∙ at)
          (sym (moved j') ∙ at') in
      ground (arith, same);
}

sample_at_lem :
    (now i : ℕ) (p : Pass)
    → i < length p.keys
    → Ready i p
    → (p' : Pass) × (sample_at now i p ≡ some p')
      × Ready (i + 1) p'
      × Purges now p p'
      × (length p'.keys ≡ length p.keys)
unfolding sample_at
sample_at_lem now i p h ready =
    let (k, at) = get_elem?-some p.keys i h in
    elim (Option-cases (lookup k p.items)) [
      | inl absent ↦ absurd (ready.inside i k (omega arith) at absent)
      | inr (e, here) ↦ elim (Bool-cases (is_expired now e)) [
        | inl gone ↦
            let p' : Pass = record p {
              items = Assoc.delete k p.items;
              expired_count = p.expired_count + 1;
              stats = inc_expirations p.stats;
            } in
            let distinct = delete-Distinct k p.items ready.distinct in
            (
              p',
              rw (sample_at, at, here, gone) refl,
              record {
                distinct = distinct;
                inside = λ j q low at_j. ground (
                  arith,
                  lookup-delete k q p.items,
                  str_eq_iff k q,
                  ready.inside j q (omega arith) at_j,
                  ready.apart i j k at,
                );
                apart = ready.apart;
              },
              record {
                entries = λ q. elim (Bool-cases (str_eq k q)) [
                  | inl same ↦ inr (
                    ground (arith, lookup-delete k q p.items),
                    rw (sym ((str_eq_iff k q).0 same), here) gone,
                  )
                  | inr differ ↦ inl (ground (arith, lookup-delete k q p.items))
                ];
                counted = omega (arith, length-delete k p.items e ready.distinct here);
                distinct = distinct;
              },
              refl,
            )
        | inr live ↦ (
          p,
          rw (sample_at, at, here, live) refl,
          record {
            distinct = ready.distinct;
            inside = λ j q low. ready.inside j q (omega arith);
            apart = ready.apart;
          },
          record { entries = λ q. inl refl; counted = refl; distinct = ready.distinct },
          refl,
        )
      ]
    ]

Purges-trans : (now : ℕ) (p₁ p₂ p₃ : Pass) → Purges now p₁ p₂ → Purges now p₂ p₃ → Purges now p₁ p₃
Purges-trans now p₁ p₂ p₃ a b = record {
  entries = λ q. elim (a.entries q) [
    | inl same ↦ elim (b.entries q) [
      | inl same' ↦ inl (same' ∙ same)
      | inr (gone, old) ↦ inr (gone, rw (sym same) old)
    ]
    | inr (gone, old) ↦ elim (b.entries q) [
      | inl same' ↦ inr (same' ∙ gone, old)
      | inr (gone', old') ↦ inr (gone', old)
    ]
  ];
  counted = b.counted ∙ a.counted;
  distinct = b.distinct;
}

-- A pass draws its samples without a panic, if the draws are in range.
pub sample_loop_lem :
    (intn : ℕ → ℕ → ℕ) (now n i : ℕ) (p : Pass)
    → ((round k : ℕ) → 0 < k → intn round k < k)
    → i + n ≤ length p.keys
    → Ready i p
    → (p' : Pass) × (sample_loop intn now n i p ≡ some p') × Purges now p p'
unfolding sample_loop
sample_loop_lem intn now zero i p draws h ready =
    (p, refl, record { entries = λ q. inl refl; counted = refl; distinct = ready.distinct })
sample_loop_lem intn now (suc n) i p draws h ready =
    let offset = intn i (length p.keys - i) in
    let in_range : offset < length p.keys - i = draws i (length p.keys - i) (omega arith) in
    let r = offset + i in
    let (keys', swapped, same, moved) = swap_lem p.keys i r (omega arith) (omega arith) in
    let p₁ : Pass = record p { keys = keys' } in
    let (p₂, sampled, ready₂, purged, kept) =
      sample_at_lem now i p₁ (omega arith) (swap-Ready p i r keys' (omega arith) moved ready) in
    let (p', done, purged') = sample_loop_lem intn now n (i + 1) p₂ draws (omega arith) ready₂ in
    let moves : Purges now p p₂ = record {
      entries = purged.entries;
      counted = purged.counted;
      distinct = purged.distinct;
    } in
    (p', rw (sample_loop, swapped, sampled) done, Purges-trans now p p₂ p' moves purged')

keys_of-inside :
    (m : Map Entry) (j : ℕ) (k : Str) → get_elem? (keys_of m) j ≡ some k → lookup k m ≢ none
unfolding lookup
keys_of-inside [] j k at = ground arith
keys_of-inside ((q, e) ∷ m) zero k at = ground (arith, str_eq_iff q k)
keys_of-inside ((q, e) ∷ m) (suc j) k at = ground (arith, keys_of-inside m j k)

keys_of-apart :
    (m : Map Entry) (j j' : ℕ) (k : Str)
    → Distinct m
    → get_elem? (keys_of m) j ≡ some k
    → get_elem? (keys_of m) j' ≡ some k
    → j ≡ j'
keys_of-apart [] j j' k d at at' = ground arith
keys_of-apart ((q, e) ∷ m) zero zero k d at at' = refl
keys_of-apart ((q, e) ∷ m) zero (suc j') k d at at' = ground (arith, keys_of-inside m j' k at')
keys_of-apart ((q, e) ∷ m) (suc j) zero k d at at' = ground (arith, keys_of-inside m j k at)
keys_of-apart ((q, e) ∷ m) (suc j) (suc j') k d at at' = ap suc (keys_of-apart m j j' k d.1 at at')

pub length-keys_of : (m : Map Entry) → length (keys_of m) ≡ length m
length-keys_of [] = refl
length-keys_of ((q, e) ∷ m) = ap suc (length-keys_of m)

-- The keys that a pass collects are ready to be sampled.
pub keys_of-Ready :
    (m : Map Entry) (n : ℕ) (stats : StoreStats)
    → Distinct m
    → Ready 0 (record { keys = keys_of m; items = m; expired_count = n; stats = stats })
keys_of-Ready m n stats d = record {
  distinct = d;
  inside = λ j k low at. keys_of-inside m j k at;
  apart = λ j j' k. keys_of-apart m j j' k d;
}
