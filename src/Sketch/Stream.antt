-- ===== src/Sketch/Stream.antt =====
-- The sketch against exact counters, over any history of accesses, decays and resets.
use distributed_cache_system.Prelude.{
  ℕ, zero, suc, ◌+◌, ◌/◌, ◌≤◌, ◌<◌, ◌≡◌, refl, Option, none, some, List, [], ◌∷◌, Str, codes,
  str_eq, if◌then◌else◌, arith, length, replicate, get_elem?-replicate,
}
use distributed_cache_system.Sketch.{
  CountMinSketch, max_uint64, cell, seeds_from, or_default, new_count_min_sketch, increment,
  estimate, decay, reset,
}
use distributed_cache_system.Sketch.Bounds.{
  Tracks, increment-Tracks, decay-Tracks, reset-Tracks, estimate_bounds,
}

pub data Event : Type 0 where
  access : Str → Event
  halve : Event
  clear : Event

-- The history on the sketch, oldest event first.
unfoldable pub run : List Event → CountMinSketch → Option CountMinSketch
run [] cms = some cms
run (access key ∷ es) cms = elim (increment key cms) [ none ↦ none | some c ↦ run es c ]
run (halve ∷ es) cms = run es (decay cms)
run (clear ∷ es) cms = run es (reset cms)

-- The history on an exact counter of one key.
unfoldable pub exact : Str → List Event → ℕ → ℕ
exact q [] n = n
exact q (access key ∷ es) n = exact q es (if str_eq key q then n + 1 else n)
exact q (halve ∷ es) n = exact q es (n / 2)
exact q (clear ∷ es) n = exact q es 0

seeds_from-length : (i n : ℕ) → length (seeds_from i n) ≡ n
unfolding seeds_from
seeds_from-length i zero = refl
seeds_from-length i (suc n) = omega (arith, seeds_from-length (i + 1) n)

blank_cell : (d w j k : ℕ) → j < d → k < w → cell (replicate d (replicate {A = ℕ} w 0)) j k ≡ some 0
unfolding cell
blank_cell d w j k hj hk =
    rw (get_elem?-replicate d j (replicate {A = ℕ} w 0) hj, cell) (get_elem?-replicate w k 0 hk)

pub new-Tracks : (width depth : ℕ) → Tracks (λ q. 0) (new_count_min_sketch width depth)
unfolding new_count_min_sketch or_default
new-Tracks width depth = record {
  wide = ground arith;
  deep = ground arith;
  seeded = seeds_from-length 0 (or_default depth 4);
  bounded = λ j k hj hk. (0, blank_cell _ _ j k hj hk, omega arith);
  counted = λ q j h c hashed held. omega arith;
}

run-Tracks :
    (es : List Event) (f : Str → ℕ) (cms : CountMinSketch)
    → Tracks f cms
    → cms.total + length es < max_uint64
    → (cms' : CountMinSketch) × (run es cms ≡ some cms')
      × Tracks (λ q. exact q es (f q)) cms'
      × (cms'.total ≤ cms.total + length es)
unfolding run exact
run-Tracks [] f cms t h = (cms, refl, t, omega arith)
run-Tracks (access key ∷ es) f cms t h =
    let (c, step, t', tot) = increment-Tracks f key cms t (omega arith) in
    let (cms', rest, done, le) = run-Tracks es _ c t' (omega arith) in
    (cms', rw (step, run) rest, done, omega arith)
run-Tracks (halve ∷ es) f cms t h =
    let small : (decay cms).total ≤ cms.total = unfold decay in omega arith in
    let (cms', rest, done, le) =
      run-Tracks es _ (decay cms) (decay-Tracks f (codes "") cms t) (omega arith) in
    (cms', rest, done, omega arith)
run-Tracks (clear ∷ es) f cms t h =
    let small : (reset cms).total ≤ cms.total = unfold reset in omega arith in
    let (cms', rest, done, le) =
      run-Tracks es _ (reset cms) (reset-Tracks f (codes "") cms t) (omega arith) in
    (cms', rest, done, omega arith)

-- After any history of fewer than 2^64 - 1 accesses, decays and resets on a new sketch, no
-- operation panics, and the estimate of a key lies between an exact counter of the key and the
-- total.
pub run-estimate :
    (width depth : ℕ) (es : List Event) (key : Str)
    → length es < max_uint64
    → (cms : CountMinSketch) × (e : ℕ) × (run es (new_count_min_sketch width depth) ≡ some cms)
      × (estimate key cms ≡ some e)
      × (exact key es 0 ≤ e)
      × (e ≤ cms.total)
run-estimate width depth es key h =
    let start = new_count_min_sketch width depth in
    let none_yet : start.total ≡ 0 = unfold new_count_min_sketch in refl in
    let (cms, ran, t, le) = run-Tracks es (λ q. 0) start (new-Tracks width depth) (omega arith) in
    let (e, found, lo, hi) = estimate_bounds _ key cms t (omega arith) in
    (cms, e, ran, found, lo, hi)
