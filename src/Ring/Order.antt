-- ===== src/Ring/Order.antt =====
-- Rings whose virtual nodes are sorted by hash, and `sort.Slice`.
use distributed_cache_system.Prelude.{
  ℕ, suc, ◌≤◌, ◌≡◌, Bool, List, [], ◌∷◌, if◌then◌else◌, arith, keep_if,
}
use distributed_cache_system.Ring.{VNode}

abbrev pub Above : ℕ → List VNode → Type 0
Above h [] = Unit {0}
Above h (v ∷ vs) = (h ≤ v.hash) × Above h vs

abbrev pub IsSorted : List VNode → Type 0
IsSorted [] = Unit {0}
IsSorted (v ∷ vs) = Above v.hash vs × IsSorted vs

-- How many virtual nodes pass a test.
abbrev pub count_if : (VNode → Bool) → List VNode → ℕ
count_if p [] = 0
count_if p (v ∷ vs) = if p v then suc (count_if p vs) else count_if p vs

-- What `sort.Slice` promises: the same elements, in order. It need not be stable.
pub record SortSlice : Type 0 where
  pub sort_slice : List VNode → List VNode
  pub sort_slice-IsSorted : (vs : List VNode) → IsSorted (sort_slice vs)
  pub sort_slice-count :
      (p : VNode → Bool) (vs : List VNode) → count_if p (sort_slice vs) ≡ count_if p vs

pub Above-mono : {a b : ℕ} (vs : List VNode) → a ≤ b → Above b vs → Above a vs
Above-mono [] h p = tt
Above-mono (v ∷ vs) h p = (omega arith, Above-mono vs h p.1)

keep_if-Above : (p : VNode → Bool) (h : ℕ) (vs : List VNode) → Above h vs → Above h (keep_if p vs)
keep_if-Above p h [] a = tt
keep_if-Above p h (v ∷ vs) a = ground (arith, keep_if-Above p h vs a.1)

pub keep_if-IsSorted : (p : VNode → Bool) (vs : List VNode) → IsSorted vs → IsSorted (keep_if p vs)
keep_if-IsSorted p [] s = tt
keep_if-IsSorted p (v ∷ vs) s =
    ground (arith, keep_if-IsSorted p vs s.1, keep_if-Above p v.hash vs s.0)
