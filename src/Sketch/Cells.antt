-- ===== src/Sketch/Cells.antt =====
-- Reading and writing one counter of the table.
use distributed_cache_system.Prelude.{
  ℕ, zero, suc, ◌+◌, ◌%◌, ◌≡◌, refl, inl, inr, ◌&&◌, none, some, List, [], ◌∷◌, map, if◌then◌else◌,
  ◌==◌, arith, Option-cases, u64_mod, get_elem?, set, get_elem?-set, get_elem?-lt,
}
use distributed_cache_system.Sketch.{cell, bump}

-- A counter that exists can be bumped, and no other counter changes.
pub bump_lem :
    (t : List (List ℕ)) (i idx c : ℕ)
    → cell t i idx ≡ some c
    → (t' : List (List ℕ)) × (bump t i idx ≡ some t')
      × ((j k : ℕ)
          → cell t' j k ≡ (if i == j && idx == k then some ((c + 1) % u64_mod) else cell t j k))
unfolding cell bump
bump_lem t i idx c h = elim (Option-cases (get_elem? t i)) [
  | inl missing ↦ absurd (ground arith)
  | inr (row, found) ↦
      let in_row : get_elem? row idx ≡ some c = ground arith in
      (
        set t i (set row idx ((c + 1) % u64_mod)),
        ground arith,
        λ j k. ground (
          arith,
          get_elem?-set t i j (set row idx ((c + 1) % u64_mod)) (get_elem?-lt t i found),
          get_elem?-set row idx k ((c + 1) % u64_mod) (get_elem?-lt row idx in_row),
        ),
      )
]

get_elem?-map {ℓ κ} :
    {A : Type ℓ} {B : Type κ} (f : A → B) (xs : List A) (i : ℕ)
    → get_elem? (map f xs) i ≡ elim (get_elem? xs i) [ none ↦ none | some a ↦ some (f a) ]
get_elem?-map f [] i = refl
get_elem?-map f (x ∷ xs) zero = refl
get_elem?-map f (x ∷ xs) (suc i) = get_elem?-map f xs i

-- A function on every counter.
pub cell-map :
    (f : ℕ → ℕ) (t : List (List ℕ)) (i k : ℕ)
    → cell (map (λ (row : List ℕ). map f row) t) i k
      ≡ elim (cell t i k) [ none ↦ none | some c ↦ some (f c) ]
unfolding cell
cell-map f [] i k = refl
cell-map f (row ∷ t) zero k = get_elem?-map f row k
cell-map f (row ∷ t) (suc i) k = cell-map f t i k
