-- ===== src/Ring/Search.antt =====
-- internal/hashing/ring.go: the binary search for a hash.
use distributed_cache_system.Prelude.{
  ℕ, zero, suc, ◌+◌, ◌-◌, ◌/◌, ◌≤◌, ◌<◌, ◌≡◌, refl, inl, inr, Bool, List, [], ◌∷◌, if◌then◌else◌,
  ltb, leb, arith, Bool-cases, length, ltb→lt, ltb→le,
}
use distributed_cache_system.Ring.{VNode, at_least, bisect, search}
use distributed_cache_system.Ring.Order.{IsSorted, Above}

-- The number of virtual nodes before a hash.
unfoldable pub rank : ℕ → List VNode → ℕ
rank hash [] = 0
rank hash (v ∷ vs) = if ltb v.hash hash then suc (rank hash vs) else rank hash vs

pub rank-Above : (hash h : ℕ) (vs : List VNode) → Above h vs → hash ≤ h → rank hash vs ≡ 0
unfolding rank
rank-Above hash h [] a p = refl
rank-Above hash h (v ∷ vs) a p = ground (arith, rank-Above hash h vs a.1)

pub rank-le : (hash : ℕ) (vs : List VNode) → rank hash vs ≤ length vs
unfolding rank
rank-le hash [] = omega arith
rank-le hash (v ∷ vs) = ground (arith, rank-le hash vs)

-- In a sorted list the test fails below the rank and passes from there on.
at_least_iff :
    (vs : List VNode) (hash i : ℕ)
    → IsSorted vs
    → i < length vs
    → at_least vs hash i ≡ leb (rank hash vs) i
unfolding at_least rank
at_least_iff [] hash i s h = absurd (omega arith)
at_least_iff (v ∷ vs) hash zero s h = ground (arith, rank-Above hash v.hash vs s.0)
at_least_iff (v ∷ vs) hash (suc i) s h =
    ground (arith, at_least_iff vs hash i s.1, rank-Above hash v.hash vs s.0)

-- Bisection of a range in which a test changes once.
bisect-eq :
    (fuel : ℕ) (f : ℕ → Bool) (r i j n : ℕ)
    → ((k : ℕ) → k < n → f k ≡ leb r k)
    → i ≤ r
    → r ≤ j
    → j ≤ n
    → j - i ≤ fuel
    → bisect fuel f i j ≡ r
unfolding bisect
bisect-eq zero f r i j n t a b c d = omega arith
bisect-eq (suc fuel) f r i j n t a b c d = elim (Bool-cases (ltb i j)) [
  | inr done ↦ rw (done, bisect) (omega (arith, ltb→le i j done))
  | inl more ↦
      let lt : i < j = ltb→lt i j more in
      let here = t ((i + j) / 2) (omega arith) in
      elim (Bool-cases (f ((i + j) / 2))) [
        | inl high ↦
            rw (more, bisect, high)
              (bisect-eq fuel f r i ((i + j) / 2) n t a (ground arith) (omega arith) (omega arith))
        | inr low ↦
            rw (more, bisect, low)
              (bisect-eq fuel f r ((i + j) / 2 + 1) j n t (ground arith) b c (omega arith))
      ]
]

-- `search` returns the position of the first virtual node at or after the hash, and wraps around to
-- the first of all if there is none.
pub search-rank :
    (vs : List VNode) (hash : ℕ)
    → IsSorted vs
    → search vs hash ≡ (if ltb (rank hash vs) (length vs) then rank hash vs else 0)
unfolding search
search-rank vs hash s =
    let found =
      bisect-eq (length vs) (at_least vs hash) (rank hash vs) 0 (length vs) (length vs)
        (λ k h. at_least_iff vs hash k s h) (omega arith) (rank-le hash vs) (omega arith)
        (omega arith) in
    rw found (ground (arith, rank-le hash vs))
