-- ===== src/Ring/Slices.antt =====
-- Slices read from a start position with wrap-around.
use native.Mathlib.Nat.{mod-eq_of_lt, mod-eq-sub-mod}
use distributed_cache_system.Prelude.{
  ℕ, zero, suc, ◌+◌, ◌-◌, ◌%◌, ◌≤◌, ◌<◌, ◌≡◌, refl, sym, ap, ◌∙◌, inl, inr, some, List, [], ◌∷◌,
  ◌++◌, ltb, arith, Bool-cases, length, length-append, get_elem?, drop, take, ltb→lt, ltb→le,
}

-- Reading a slice from a start position with wrap-around.
module _ {ℓ} {A : Type ℓ} where
  get_elem?-append_left :
      (xs ys : List A) (i : ℕ) → i < length xs → get_elem? (xs ++ ys) i ≡ get_elem? xs i
  get_elem?-append_left [] ys i h = absurd (omega arith)
  get_elem?-append_left (x ∷ xs) ys zero h = refl
  get_elem?-append_left (x ∷ xs) ys (suc i) h = get_elem?-append_left xs ys i (omega arith)

  get_elem?-append_right :
      (xs ys : List A) (i : ℕ) → get_elem? (xs ++ ys) (length xs + i) ≡ get_elem? ys i
  get_elem?-append_right [] ys i = let e : 0 + i ≡ i = omega arith in rw e refl
  get_elem?-append_right (x ∷ xs) ys i =
      let e : suc (length xs) + i ≡ suc (length xs + i) = omega arith in
      rw e (get_elem?-append_right xs ys i)

  get_elem?-drop : (xs : List A) (k i : ℕ) → get_elem? (drop k xs) i ≡ get_elem? xs (k + i)
  get_elem?-drop xs zero i = let e : 0 + i ≡ i = omega arith in rw e refl
  get_elem?-drop [] (suc k) i = refl
  get_elem?-drop (x ∷ xs) (suc k) i =
      let e : suc k + i ≡ suc (k + i) = omega arith in rw e (get_elem?-drop xs k i)

  get_elem?-take : (xs : List A) (k i : ℕ) → i < k → get_elem? (take k xs) i ≡ get_elem? xs i
  get_elem?-take xs zero i h = absurd (omega arith)
  get_elem?-take [] (suc k) i h = refl
  get_elem?-take (x ∷ xs) (suc k) zero h = refl
  get_elem?-take (x ∷ xs) (suc k) (suc i) h = get_elem?-take xs k i (omega arith)

  length-drop : (k : ℕ) (xs : List A) → length (drop k xs) ≡ length xs - k
  length-drop zero xs = omega arith
  length-drop (suc k) [] = omega arith
  length-drop (suc k) (x ∷ xs) = omega (arith, length-drop k xs)

  pub drop_at :
      (xs : List A) (i : ℕ)
      → i < length xs
      → (a : A) × (get_elem? xs i ≡ some a) × (drop i xs ≡ a ∷ drop (suc i) xs)
  drop_at [] i h = absurd (omega arith)
  drop_at (x ∷ xs) zero h = (x, refl, refl)
  drop_at (x ∷ xs) (suc i) h = drop_at xs i (omega arith)

  pub get_elem?-wrap :
      (xs : List A) (k i : ℕ)
      → k < length xs
      → i < length xs
      → get_elem? xs ((k + i) % length xs) ≡ get_elem? (drop k xs ++ take k xs) i
  get_elem?-wrap xs k i hk hi =
      let n = length xs in
      elim (Bool-cases (ltb (k + i) n)) [
        | inl fits ↦
            let lt : k + i < n = ltb→lt _ _ fits in
            let e : (k + i) % n ≡ k + i = mod-eq_of_lt lt in
            rw e (
              sym (
                get_elem?-append_left (drop k xs) (take k xs) i (omega (arith, length-drop k xs))
                ∙ get_elem?-drop xs k i))
        | inr wraps ↦
            let le : n ≤ k + i = ltb→le _ _ wraps in
            let m = k + i - n in
            let e : (k + i) % n ≡ m = mod-eq-sub-mod le ∙ mod-eq_of_lt (omega arith) in
            let at : i ≡ length (drop k xs) + m = omega (arith, length-drop k xs) in
            rw e (
              sym (
                ap (get_elem? (drop k xs ++ take k xs)) at
                ∙ get_elem?-append_right (drop k xs) (take k xs) m
                ∙ get_elem?-take xs k m (omega arith)))
      ]

  length-take : (k : ℕ) (xs : List A) → k ≤ length xs → length (take k xs) ≡ k
  length-take zero xs h = refl
  length-take (suc k) [] h = absurd (omega arith)
  length-take (suc k) (x ∷ xs) h = ap suc (length-take k xs (omega arith))

  pub length-wrap :
      (k : ℕ) (xs : List A) → k ≤ length xs → length (drop k xs ++ take k xs) ≡ length xs
  length-wrap k xs h =
      omega (arith, length-append (drop k xs) (take k xs), length-drop k xs, length-take k xs h)

  pub drop_past : (xs : List A) (i : ℕ) → length xs ≤ i → drop i xs ≡ []
  drop_past [] zero h = refl
  drop_past [] (suc i) h = refl
  drop_past (x ∷ xs) zero h = absurd (omega arith)
  drop_past (x ∷ xs) (suc i) h = drop_past xs i (omega arith)

  pub take-nil : (n : ℕ) → take {A = A} n [] ≡ []
  take-nil zero = refl
  take-nil (suc n) = refl
