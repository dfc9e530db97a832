-- ===== src/Sketch.antt =====
-- internal/hotkey/detector.go: the Count-Min Sketch.
-- A loop over `i < depth` is a recursion on the rows left, over the rows and their seeds together.
pub mod Cells
pub mod Bounds
pub mod Stream
use distributed_cache_system.Hash.{fnv32a}
use distributed_cache_system.Prelude.{
  ℕ, zero, suc, ◌+◌, ◌-◌, ◌*◌, ◌/◌, ◌%◌, ◌^◌, Bool, true, false, Option, none, some, List, [], ◌∷◌,
  ◌++◌, map, Str, if◌then◌else◌, ltb, ◌==◌, u32_mod, u64_mod, length, get_elem?, set, replicate,
}

pub record CountMinSketch : Type 0 where
  pub width : ℕ
  pub depth : ℕ
  pub table : List (List ℕ)
  pub seeds : List ℕ
  pub total : ℕ

abbrev pub max_uint64 : ℕ
max_uint64 = 2 ^ 64 - 1

-- `uint64(i*2654435761 + 1)`, computed on `uint32`.
unfoldable pub seed_of : ℕ → ℕ
seed_of i = (i * 2654435761 + 1) % u32_mod

-- `seeds[i], …, seeds[depth-1]`, with `n` of them left.
unfoldable pub seeds_from : ℕ → ℕ → List ℕ
seeds_from i zero = []
seeds_from i (suc n) = seed_of i ∷ seeds_from (i + 1) n

unfoldable pub or_default : ℕ → ℕ → ℕ
or_default n d = if n == 0 then d else n

unfoldable pub new_count_min_sketch : ℕ → ℕ → CountMinSketch
unfolding seed_of seeds_from or_default
new_count_min_sketch width depth =
    let w = or_default width 4096 in
    let d = or_default depth 4 in
    record {
      width = w;
      depth = d;
      table = replicate d (replicate w 0);
      seeds = seeds_from 0 d;
      total = 0;
    }

-- The four low bytes of a seed.
unfoldable pub seed_bytes : ℕ → Str
seed_bytes seed =
    (seed % 256) ∷ (seed / 2 ^ 8 % 256) ∷ (seed / 2 ^ 16 % 256) ∷ (seed / 2 ^ 24 % 256) ∷ []

-- `hash(key, i)`; `none` where `seeds[i]` is out of range.
unfoldable pub hash : CountMinSketch → Str → ℕ → Option ℕ
unfolding seed_bytes
hash cms key i = elim (get_elem? cms.seeds i) [
  | none ↦ none
  | some seed ↦ some (fnv32a (seed_bytes seed ++ key))
]

-- `table[i][idx]++`; `none` where an index is out of range.
unfoldable pub bump : List (List ℕ) → ℕ → ℕ → Option (List (List ℕ))
bump table i idx = elim (get_elem? table i) [
  | none ↦ none
  | some row ↦ elim (get_elem? row idx) [
    | none ↦ none
    | some c ↦ some (set table i (set row idx ((c + 1) % u64_mod)))
  ]
]

-- The loop of `Increment` from row `i` on, with `n` rows left.
unfoldable pub increment_rows : ℕ → ℕ → Str → CountMinSketch → Option CountMinSketch
increment_rows zero i key cms = some cms
increment_rows (suc n) i key cms = elim (hash cms key i) [
  | none ↦ none
  | some h ↦ elim (bump cms.table i (h % cms.width)) [
    | none ↦ none
    | some t ↦ increment_rows n (i + 1) key (record cms { table = t })
  ]
]

unfoldable pub increment : Str → CountMinSketch → Option CountMinSketch
increment key cms = elim (increment_rows cms.depth 0 key cms) [
  | none ↦ none
  | some c ↦ some (record c { total = (c.total + 1) % u64_mod })
]

unfoldable pub cell : List (List ℕ) → ℕ → ℕ → Option ℕ
cell table i idx = elim (get_elem? table i) [ none ↦ none | some row ↦ get_elem? row idx ]

-- The loop of `Estimate`, which keeps the least counter so far.
unfoldable pub least_from : ℕ → ℕ → Str → CountMinSketch → ℕ → Option ℕ
least_from zero i key cms least = some least
least_from (suc n) i key cms least = elim (hash cms key i) [
  | none ↦ none
  | some h ↦ elim (cell cms.table i (h % cms.width)) [
    | none ↦ none
    | some c ↦ least_from n (i + 1) key cms (if ltb c least then c else least)
  ]
]

unfoldable pub estimate : Str → CountMinSketch → Option ℕ
estimate key cms = elim (least_from cms.depth 0 key cms max_uint64) [
  | none ↦ none
  | some least ↦ some (if least == max_uint64 then 0 else least)
]

-- `Decay` and `Reset` write every counter of the `depth` rows of `width` counters.
unfoldable pub decay : CountMinSketch → CountMinSketch
decay cms = record cms {
  table = map (λ (row : List ℕ). map (λ (c : ℕ). c / 2) row) cms.table;
  total = cms.total / 2;
}

unfoldable pub reset : CountMinSketch → CountMinSketch
reset cms = record cms {
  table = map (λ (row : List ℕ). map (λ (c : ℕ). 0) row) cms.table;
  total = 0;
}
