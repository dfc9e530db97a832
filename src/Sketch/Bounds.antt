-- ===== src/Sketch/Bounds.antt =====
-- internal/hotkey/detector.go: the counters of a sketch against a count for each key.
use distributed_cache_system.Hash.{fnv32a}
use distributed_cache_system.Prelude.{
  ℕ, zero, suc, ◌+◌, ◌/◌, ◌%◌, ◌≤◌, ◌<◌, ◌≡◌, refl, inl, inr, false, ◌&&◌, some, List, ◌++◌, Str,
  str_eq, str_eq_iff, if◌then◌else◌, ltb, ◌==◌, arith, Option-cases, u64_mod, length, get_elem?,
  get_elem?-some, get_elem?-lt,
}
use distributed_cache_system.Sketch.{
  CountMinSketch, max_uint64, seed_bytes, hash, increment_rows, increment, cell, least_from,
  estimate, decay, reset,
}
use distributed_cache_system.Sketch.Cells.{bump_lem, cell-map}

-- Rows below `i` have seen one more access of `key` than the counts `f` say.
pub record Rows (f : Str → ℕ) (key : Str) (i : ℕ) (cms : CountMinSketch) : Type 0 where
  pub wide : 0 < cms.width
  pub seeded : length cms.seeds ≡ cms.depth
  pub bounded :
      (j k : ℕ)
      → j < cms.depth
      → k < cms.width
      → (c : ℕ) × (cell cms.table j k ≡ some c)
        × (c ≤ (if ltb j i then cms.total + 1 else cms.total))
  pub counted :
      (q : Str) (j h c : ℕ)
      → hash cms q j ≡ some h
      → cell cms.table j (h % cms.width) ≡ some c
      → (if ltb j i && str_eq key q then f q + 1 else f q) ≤ c

hash-some :
    (cms : CountMinSketch) (key : Str) (i : ℕ)
    → i < length cms.seeds
    → (h : ℕ) × (hash cms key i ≡ some h)
unfolding hash
hash-some cms key i lt =
    let (seed, e) = get_elem?-some cms.seeds i lt in (fnv32a (seed_bytes seed ++ key), rw (e, hash))

hash-lt :
    (cms : CountMinSketch) (key : Str) (i h : ℕ) → hash cms key i ≡ some h → i < length cms.seeds
unfolding hash
hash-lt cms key i h e = elim (Option-cases (get_elem? cms.seeds i)) [
  | inl missing ↦ absurd (ground arith)
  | inr (seed, found) ↦ get_elem?-lt cms.seeds i found
]

module _ (f : Str → ℕ) (key : Str) (i : ℕ) (cms : CountMinSketch) (h c : ℕ) (t' : List (List ℕ))
    (r : Rows f key i cms) (hashed : hash cms key i ≡ some h)
    (held : cell cms.table i (h % cms.width) ≡ some c) (le : c ≤ cms.total)
    (small : cms.total + 1 < u64_mod)
    (cells : (j k : ℕ)
      → cell t' j k ≡ (
          if i == j && h % cms.width == k
          then some ((c + 1) % u64_mod)
          else cell cms.table j k)) where
  bump_bounded :
      (j k : ℕ)
      → j < cms.depth
      → k < cms.width
      → (d : ℕ) × (cell t' j k ≡ some d)
        × (d ≤ (if ltb j (i + 1) then cms.total + 1 else cms.total))
  bump_bounded j k hj hk =
      let (d, here, below) = r.bounded j k hj hk in
      let wraps : (c + 1) % u64_mod ≡ c + 1 = omega arith in
      (if i == j && h % cms.width == k then c + 1 else d, ground (arith, cells j k), ground arith)

  bump_counted :
      (q : Str) (j h' d : ℕ)
      → hash cms q j ≡ some h'
      → cell t' j (h' % cms.width) ≡ some d
      → (if ltb j (i + 1) && str_eq key q then f q + 1 else f q) ≤ d
  bump_counted q j h' d hashed' here =
      let wraps : (c + 1) % u64_mod ≡ c + 1 = omega arith in
      ground
        (arith, cells j (h' % cms.width), r.counted q j h' d, r.counted q j h' c, str_eq_iff key q)

  bump-Rows : Rows f key (i + 1) (record cms { table = t' })
  unfolding hash
  bump-Rows = record {
    wide = r.wide;
    seeded = r.seeded;
    bounded = bump_bounded;
    counted = bump_counted;
  }

increment_rows_lem :
    (f : Str → ℕ) (n i : ℕ) (key : Str) (cms : CountMinSketch)
    → cms.total + 1 < u64_mod
    → i + n ≡ cms.depth
    → Rows f key i cms
    → (cms' : CountMinSketch) × (increment_rows n i key cms ≡ some cms')
      × Rows f key cms'.depth cms'
      × (cms'.total ≡ cms.total)
      × (cms'.depth ≡ cms.depth)
unfolding increment_rows
increment_rows_lem f zero i key cms small e r =
    let at_end : i ≡ cms.depth = omega arith in (cms, refl, rw at_end at r, refl, refl)
increment_rows_lem f (suc n) i key cms small e r =
    let (h, hashed) = hash-some cms key i (omega (arith, r.seeded)) in
    let (c, held, le) = r.bounded i (h % cms.width) (omega arith) (omega (arith, r.wide)) in
    let (t', bumped, cells) = bump_lem cms.table i (h % cms.width) c held in
    let r' = bump-Rows f key i cms h c t' r hashed held (ground arith) small cells in
    let (cms', run, rows, tot, dep) =
      increment_rows_lem f n (i + 1) key (record cms { table = t' }) small (omega arith) r' in
    (cms', rw (hashed, increment_rows, bumped) run, rows, tot, dep)

-- The sketch against a count for each key.
pub record Tracks (f : Str → ℕ) (cms : CountMinSketch) : Type 0 where
  pub wide : 0 < cms.width
  pub deep : 0 < cms.depth
  pub seeded : length cms.seeds ≡ cms.depth
  pub bounded :
      (j k : ℕ)
      → j < cms.depth
      → k < cms.width
      → (c : ℕ) × (cell cms.table j k ≡ some c) × (c ≤ cms.total)
  pub counted :
      (q : Str) (j h c : ℕ)
      → hash cms q j ≡ some h
      → cell cms.table j (h % cms.width) ≡ some c
      → f q ≤ c

module _ (f : Str → ℕ) (key : Str) (cms : CountMinSketch) (t : Tracks f cms) where
  start-Rows : Rows f key 0 cms
  start-Rows = record {
    wide = t.wide;
    seeded = t.seeded;
    bounded = λ j k hj hk.
        let none_yet : ltb j 0 ≡ false = ground arith in rw none_yet (t.bounded j k hj hk);
    counted = λ q j h c hashed held.
        let none_yet : ltb j 0 ≡ false = ground arith in
        rw none_yet (t.counted q j h c hashed held);
  }

  -- An access is counted for its key, and counted once in the total.
  pub increment-Tracks :
      cms.total + 1 < u64_mod
      → (cms' : CountMinSketch) × (increment key cms ≡ some cms')
        × Tracks (λ q. if str_eq key q then f q + 1 else f q) cms'
        × (cms'.total ≡ cms.total + 1)
  unfolding increment
  increment-Tracks small =
      let (c, run, rows, tot, dep) =
        increment_rows_lem f cms.depth 0 key cms small (omega arith) start-Rows in
      let total : (c.total + 1) % u64_mod ≡ cms.total + 1 = omega arith in
      (
        record c { total = (c.total + 1) % u64_mod },
        rw (run, increment),
        unfold hash in
            record {
              wide = rows.wide;
              deep = rw dep t.deep;
              seeded = rows.seeded;
              bounded = λ j k hj hk.
                  let (d, here, le) = rows.bounded j k hj hk in (d, here, ground arith);
              counted = λ q j h d hashed held.
                  let in_range : j < c.depth = omega (arith, hash-lt c q j h hashed, rows.seeded) in
                  ground (arith, rows.counted q j h d);
            },
        total,
      )

  decay_counted :
      (q : Str) (j h d : ℕ)
      → hash (decay cms) q j ≡ some h
      → cell (decay cms).table j (h % cms.width) ≡ some d
      → f q / 2 ≤ d
  unfolding decay hash
  decay_counted q j h d hashed held =
      let halved = cell-map (λ (x : ℕ). x / 2) cms.table j (h % cms.width) in
      elim (Option-cases (cell cms.table j (h % cms.width))) [
        | inl missing ↦ absurd (ground arith)
        | inr (c, here) ↦
            let le = t.counted q j h c hashed here in
            let half : c / 2 ≡ d = ground (arith, halved) in omega arith
      ]

  pub decay-Tracks : Tracks (λ q. f q / 2) (decay cms)
  unfolding decay hash
  decay-Tracks = record {
    wide = t.wide;
    deep = t.deep;
    seeded = t.seeded;
    bounded = λ j k hj hk.
        let (c, here, le) = t.bounded j k hj hk in
        (c / 2, rw (cell-map (λ (x : ℕ). x / 2) cms.table j k, here) refl, omega arith);
    counted = λ q j h d hashed held. decay_counted q j h d hashed held;
  }

  pub reset-Tracks : Tracks (λ q. 0) (reset cms)
  unfolding reset hash
  reset-Tracks = record {
    wide = t.wide;
    deep = t.deep;
    seeded = t.seeded;
    bounded = λ j k hj hk.
        let (c, here, le) = t.bounded j k hj hk in
        (0, rw (cell-map (λ (x : ℕ). 0) cms.table j k, here) refl, omega arith);
    counted = λ q j h d hashed held. omega arith;
  }

  least_from_lem :
      (n i least : ℕ)
      → i + n ≡ cms.depth
      → f key ≤ least
      → (e : ℕ) × (least_from n i key cms least ≡ some e)
        × (f key ≤ e)
        × (e ≤ least)
        × (0 < n → e ≤ cms.total)
  unfolding least_from
  least_from_lem zero i least eq above =
      (least, refl, above, omega arith, λ p. absurd (omega arith))
  least_from_lem (suc n) i least eq above =
      let (h, hashed) = hash-some cms key i (omega (arith, t.seeded)) in
      let (c, held, le) = t.bounded i (h % cms.width) (omega arith) (omega (arith, t.wide)) in
      let next = if ltb c least then c else least in
      let (e, run, lo, hi, _) =
        least_from_lem n (i + 1) next (omega arith)
          (ground (arith, t.counted key i h c hashed held)) in
      (e, rw (hashed, least_from, held) run, lo, ground arith, λ p. ground arith)

  -- The estimate is at least the count of the key and at most the total.
  pub estimate_bounds :
      cms.total < max_uint64 → (e : ℕ) × (estimate key cms ≡ some e) × (f key ≤ e) × (e ≤ cms.total)
  unfolding estimate
  estimate_bounds small =
      let (h, hashed) = hash-some cms key 0 (omega (arith, t.seeded, t.deep)) in
      let (d, here, le) = t.bounded 0 (h % cms.width) t.deep (omega (arith, t.wide)) in
      let (e, run, lo, hi, top) =
        least_from_lem cms.depth 0 max_uint64 (omega arith)
          (omega (arith, t.counted key 0 h d hashed here, le)) in
      (e, rw (run, estimate) (ground (arith, top t.deep)), lo, top t.deep)
