-- ===== src/L1Cache/Links.antt =====
-- The list of elements, and the element of each key.
use distributed_cache_system.Prelude.{
  ℕ, suc, ◌<◌, ◌≡◌, refl, ◌≢◌, inl, inr, Option, none, some, List, [], ◌∷◌, Str, str_eq, str_eq_iff,
  str_eq_refl, if◌then◌else◌, arith, Bool-cases, length,
}
use distributed_cache_system.L1Cache.{L1Entry, EvictList, entry_of, remove}

-- The first element whose entry has a key.
abbrev pub element_of : Str → EvictList → Option ℕ
element_of q [] = none
element_of q ((x, e) ∷ l) = if str_eq e.key q then some x else element_of q l

abbrev pub entries : EvictList → List L1Entry
entries [] = []
entries ((x, e) ∷ l) = e ∷ entries l

-- The entries as an LRU list: lookup and removal by key.
abbrev pub find : Str → List L1Entry → Option L1Entry
find q [] = none
find q (e ∷ l) = if str_eq e.key q then some e else find q l

abbrev pub drop_key : Str → List L1Entry → List L1Entry
drop_key q [] = []
drop_key q (e ∷ l) = if str_eq e.key q then l else e ∷ drop_key q l

-- No element and no key stands twice.
abbrev pub Unique : EvictList → Type 0
Unique [] = Unit {0}
Unique ((x, e) ∷ l) = (entry_of x l ≡ none) × (element_of e.key l ≡ none) × Unique l

abbrev pub Below : ℕ → EvictList → Type 0
Below n [] = Unit {0}
Below n ((x, e) ∷ l) = (x < n) × Below n l

pub find_of_element :
    (q : Str) (l : EvictList) (x : ℕ)
    → Unique l
    → element_of q l ≡ some x
    → (e : L1Entry) × (entry_of x l ≡ some e) × (find q (entries l) ≡ some e) × (e.key ≡ q)
unfolding entry_of
find_of_element q [] x u h = absurd (ground arith)
find_of_element q ((y, e) ∷ l) x u h = elim (Bool-cases (str_eq e.key q)) [
  | inl hit ↦ (e, ground arith, rw hit, (str_eq_iff e.key q).0 hit)
  | inr miss ↦
      let (e', at_x, found, key) = find_of_element q l x u.2 (ground arith) in
      (e', ground arith, rw miss found, key)
]

pub find_of_none : (q : Str) (l : EvictList) → element_of q l ≡ none → find q (entries l) ≡ none
find_of_none q [] h = refl
find_of_none q ((y, e) ∷ l) h = ground (arith, find_of_none q l)

module _ (x : ℕ) where
  element_of_entry :
      (l : EvictList) (e : L1Entry) → entry_of x l ≡ some e → element_of e.key l ≢ none
  unfolding entry_of
  element_of_entry [] e h = ground arith
  element_of_entry ((y, f) ∷ l) e h = ground (arith, element_of_entry l e, str_eq_refl e.key)

  -- The element of an entry's key is the element that holds the entry.
  pub element_of_held :
      (l : EvictList) (e : L1Entry) → Unique l → entry_of x l ≡ some e → element_of e.key l ≡ some x
  unfolding entry_of
  element_of_held [] e u h = absurd (ground arith)
  element_of_held ((y, f) ∷ l) e u h = ground (
    arith,
    element_of_held l e u.2,
    str_eq_iff f.key e.key,
    str_eq_refl e.key,
    element_of_entry l e,
  )

  remove_absent : (l : EvictList) → entry_of x l ≡ none → remove x l ≡ l
  unfolding entry_of remove
  remove_absent [] h = refl
  remove_absent ((y, e) ∷ l) h = ground (arith, remove_absent l)

  pub element_of-remove :
      (q : Str) (l : EvictList) (e : L1Entry)
      → Unique l
      → entry_of x l ≡ some e
      → element_of q (remove x l) ≡ (if str_eq e.key q then none else element_of q l)
  unfolding entry_of remove
  element_of-remove q [] e u h = ground arith
  element_of-remove q ((y, f) ∷ l) e u h = ground (
    arith,
    element_of-remove q l e u.2,
    str_eq_iff f.key q,
    str_eq_iff e.key q,
    element_of_entry l e,
  )

  entry_of-remove : (y : ℕ) (l : EvictList) → entry_of y l ≡ none → entry_of y (remove x l) ≡ none
  unfolding entry_of remove
  entry_of-remove y [] h = refl
  entry_of-remove y ((z, f) ∷ l) h = ground (arith, entry_of-remove y l)

  element_of-remove-none :
      (q : Str) (l : EvictList) → element_of q l ≡ none → element_of q (remove x l) ≡ none
  unfolding remove
  element_of-remove-none q [] h = refl
  element_of-remove-none q ((z, f) ∷ l) h = ground (arith, element_of-remove-none q l)

  pub remove-Unique : (l : EvictList) → Unique l → Unique (remove x l)
  unfolding remove
  remove-Unique [] u = tt
  remove-Unique ((y, f) ∷ l) u =
      ground (arith, remove-Unique l u.2, entry_of-remove y l, element_of-remove-none f.key l)

  pub remove-Below : (n : ℕ) (l : EvictList) → Below n l → Below n (remove x l)
  unfolding remove
  remove-Below n [] b = tt
  remove-Below n ((y, f) ∷ l) b = ground (arith, remove-Below n l b.1)

  pub entry_of-remove_self : (l : EvictList) → Unique l → entry_of x (remove x l) ≡ none
  unfolding remove entry_of
  entry_of-remove_self [] u = refl
  entry_of-remove_self ((y, f) ∷ l) u = ground (arith, entry_of-remove_self l u.2)

  pub entries-remove :
      (l : EvictList) (e : L1Entry)
      → Unique l
      → entry_of x l ≡ some e
      → entries (remove x l) ≡ drop_key e.key (entries l)
  unfolding entry_of remove
  entries-remove [] e u h = refl
  entries-remove ((y, f) ∷ l) e u h = ground (
    arith,
    entries-remove l e u.2,
    str_eq_iff f.key e.key,
    str_eq_refl e.key,
    element_of_entry l e,
  )

  pub length-remove :
      (l : EvictList) (e : L1Entry) → entry_of x l ≡ some e → suc (length (remove x l)) ≡ length l
  unfolding entry_of remove
  length-remove [] e h = ground arith
  length-remove ((y, f) ∷ l) e h = ground (arith, length-remove l e)
