-- ===== src/Store/Scan/Listed.antt =====
-- What `Keys`, `Len` and `ForEach` report of a valid store.
use mathlib.Core.Path.{fun_ext}
use distributed_cache_system.Prelude.{
  ℕ, zero, suc, ◌+◌, ◌≡◌, refl, sym, ap, ◌∙◌, ◌≢◌, Bool, not, ◌&&◌, ◌==◌, ltb, true, false, Option,
  none, some, List, [], ◌∷◌, ◌++◌, Str, elem, elem-append, str_eq_iff, if◌then◌else◌, arith,
  Bool-cases, Option-cases, inl, inr, length, length-append, get_elem?,
}
use distributed_cache_system.Prelude.Assoc.{Map, lookup, Distinct}
use distributed_cache_system.Store.{Entry, Shard, Store, get, is_expired, shard_index, get_shard}
use distributed_cache_system.Store.Scan.{
  is_listed, keys_of, keys_in, keys, count_of, count_in, len, remaining_ttl, for_each_of,
  for_each_in, for_each,
}
use distributed_cache_system.Store.Methods.{purged}
use distributed_cache_system.Store.Reads.{get-Leaves, value_of}
use distributed_cache_system.Store.Valid.{IsValid, view}

abbrev pub listed : ℕ → Option Entry → Bool
listed now none = false
listed now (some e) = is_listed now e

elem-keys_of :
    (now : ℕ) (k : Str) (m : Map Entry)
    → Distinct m
    → elem k (keys_of now m) ≡ listed now (lookup k m)
unfolding keys_of lookup
elem-keys_of now k [] d = refl
elem-keys_of now k ((j, e) ∷ m) d = ground (arith, elem-keys_of now k m d.1, str_eq_iff j k)

module _ (now : ℕ) (k : Str) where
  elem-keys_in_absent :
      (shs : List Shard)
      → ((i : ℕ) (sh : Shard)
          → get_elem? shs i ≡ some sh
          → Distinct sh.items × (lookup k sh.items ≡ none))
      → elem k (keys_in now shs) ≡ false
  unfolding keys_in
  elem-keys_in_absent [] h = refl
  elem-keys_in_absent (sh ∷ shs) h =
      let rest = elem-keys_in_absent shs (λ i. h (suc i)) in
      let head = h 0 sh refl in
      let here = elem-keys_of now k sh.items head.0 in
      rw elem-append (ground (arith, rest, here, head.1))

  -- A key that only one shard can hold.
  elem-keys_in :
      (shs : List Shard) (j : ℕ)
      → ((i : ℕ) (sh : Shard) → get_elem? shs i ≡ some sh → Distinct sh.items)
      → ((i : ℕ) (sh : Shard) → get_elem? shs i ≡ some sh → i ≢ j → lookup k sh.items ≡ none)
      → elem k (keys_in now shs)
        ≡ elim (get_elem? shs j) [ none ↦ false | some sh ↦ listed now (lookup k sh.items) ]
  unfolding keys_in
  elem-keys_in [] j d h = refl
  elem-keys_in (sh ∷ shs) zero d h =
      let rest =
        elem-keys_in_absent shs (λ i sh' e.
          (d (suc i) sh' e, h (suc i) sh' e (λ (p : suc i ≡ 0). absurd (omega arith)))) in
      let here = elem-keys_of now k sh.items (d 0 sh refl) in
      rw elem-append (ground (arith, rest, here))
  elem-keys_in (sh ∷ shs) (suc j) d h =
      let rest =
        elem-keys_in shs j (λ i. d (suc i))
          (λ i sh' e ne. h (suc i) sh' e (λ (p : suc i ≡ suc j). ne (omega arith))) in
      let here = elem-keys_of now k sh.items (d 0 sh refl) in
      let gone = h 0 sh refl (λ (p : 0 ≡ suc j). absurd (omega arith)) in
      rw elem-append (ground (arith, rest, here, gone))

-- `Keys` lists a key exactly when the store holds an entry for it that has no expiry or expires
-- strictly later than now.
elem-keys :
    (now : ℕ) (s : Store) (k : Str) → IsValid s → elem k (keys now s) ≡ listed now (view s k)
unfolding keys view get_shard
elem-keys now s k v =
    elem-keys_in now k s.shards (shard_index s k) v.distinct (λ i sh e ne.
      elim (Option-cases (lookup k sh.items)) [
        | inl absent ↦ absent
        | inr (entry, held) ↦ absurd (ne (sym (v.placed i sh k entry e held)))
      ])
    ∙ elim (Option-cases (get_elem? s.shards (shard_index s k))) [
      | inl missing ↦ ground arith
      | inr (sh, found) ↦ ground arith
    ]

count_of-keys_of : (now n : ℕ) (m : Map Entry) → count_of now n m ≡ n + length (keys_of now m)
unfolding count_of keys_of
count_of-keys_of now n [] = omega arith
count_of-keys_of now n ((k, e) ∷ m) =
    ground (arith, count_of-keys_of now n m, count_of-keys_of now (n + 1) m)

count_in-keys_in :
    (now n : ℕ) (shs : List Shard) → count_in now n shs ≡ n + length (keys_in now shs)
unfolding count_in keys_in
count_in-keys_in now n [] = omega arith
count_in-keys_in now n (sh ∷ shs) = omega (
  arith,
  count_in-keys_in now (count_of now n sh.items) shs,
  count_of-keys_of now n sh.items,
  length-append (keys_of now sh.items) (keys_in now shs),
)

-- `Len` is the number of keys that `Keys` lists.
len-keys : (now : ℕ) (s : Store) → len now s ≡ length (keys now s)
unfolding len keys
len-keys now s = omega (arith, count_in-keys_in now 0 s.shards)

-- A Get that finds a value.
abbrev pub found : Option Str → Bool
found none = false
found (some value) = true

both_tests :
    (now : ℕ) (e : Entry)
    → (value_of (purged now (some e))
        ≡ (if ltb 0 e.expires_at && ltb e.expires_at now then none else some e.value))
      × (is_listed now e
          ≡ (found (value_of (purged now (some e))) && not (ltb 0 now && e.expires_at == now)))
unfolding is_listed is_expired
both_tests now e = (ground arith, ground arith)

-- On a valid store, a Get of a key that has an entry returns its value unless the expiry time is
-- set and before now; Keys lists the key exactly if the Get returns the value and now is not the
-- expiry time itself.
pub get-keys :
    (s : Store) (k : Str) (e : Entry) (now later : ℕ)
    → IsValid s
    → view s k ≡ some e
    → (s' : Store) × (read : Option Str) × (get (λ x. x) now later k s ≡ some (s', read))
      × (read ≡ (if ltb 0 e.expires_at && ltb e.expires_at now then none else some e.value))
      × (elem k (keys now s) ≡ (found read && not (ltb 0 now && e.expires_at == now)))
get-keys s k e now later v here =
    let (s', done, _) = get-Leaves s k v (λ x. x) now later v in
    let (reads, lists) = both_tests now e in
    (
      s',
      value_of (purged now (some e)),
      done ∙ ap (λ o. some (s', value_of (purged now o))) here,
      reads,
      elem-keys now s k v ∙ ap (listed now) here ∙ lists,
    )

-- The entries that `ForEach` passes on, in the order of the walk.
abbrev pub Visit : Type 0
Visit = Str × Str × ℕ

unfoldable pub visits_of : ℕ → Map Entry → List Visit
visits_of now [] = []
visits_of now ((k, e) ∷ m) =
    if is_expired now e
    then visits_of now m
    else (k, e.value, remaining_ttl now e) ∷ visits_of now m

unfoldable pub visits_in : ℕ → List Shard → List Visit
visits_in now [] = []
visits_in now (sh ∷ shs) = visits_of now sh.items ++ visits_in now shs

abbrev go_on_with : {A : Type 0} → A × Bool → (A → A × Bool) → A × Bool
go_on_with r f = elim r.1 [ true ↦ f r.0 | false ↦ (r.0, false) ]

go_on_with_assoc :
    {A : Type 0} (r : A × Bool) (f g : A → A × Bool)
    → go_on_with (go_on_with r f) g ≡ go_on_with r (λ a. go_on_with (f a) g)
go_on_with_assoc (a, true) f g = refl
go_on_with_assoc (a, false) f g = refl

module _ {A : Type 0} (fn : Str → Str → ℕ → A → A × Bool) where
  -- A loop over the visits that stops after the first callback that says so.
  unfoldable pub visit_all : List Visit → A → A × Bool
  visit_all [] a = (a, true)
  visit_all ((k, value, ttl) ∷ vs) a = go_on_with (fn k value ttl a) (visit_all vs)

  visit_all-append :
      (vs ws : List Visit) (a : A)
      → visit_all (vs ++ ws) a ≡ go_on_with (visit_all vs a) (visit_all ws)
  unfolding visit_all
  visit_all-append [] ws a = refl
  visit_all-append ((k, value, ttl) ∷ vs) ws a =
      ap (go_on_with (fn k value ttl a)) (fun_ext (visit_all-append vs ws))
      ∙ sym (go_on_with_assoc (fn k value ttl a) (visit_all vs) (visit_all ws))

  for_each_of-visit_all :
      (now : ℕ) (m : Map Entry) (a : A) → for_each_of now fn m a ≡ visit_all (visits_of now m) a
  unfolding for_each_of visits_of visit_all
  for_each_of-visit_all now [] a = refl
  for_each_of-visit_all now ((k, e) ∷ m) a = elim (Bool-cases (is_expired now e)) [
    | inl gone ↦ rw (gone, for_each_of, visits_of) (for_each_of-visit_all now m a)
    | inr live ↦
        rw (live, for_each_of, visits_of)
          (ap (go_on_with (fn k e.value (remaining_ttl now e) a))
            (fun_ext (for_each_of-visit_all now m)))
  ]

  -- The outer loop, after the walk of one shard.
  abbrev next_shard : (A → A) → A × Bool → A
  next_shard f r = elim r.1 [ true ↦ f r.0 | false ↦ r.0 ]

  next_shard-go_on_with :
      (f : A → A) (g : A → A × Bool) (r : A × Bool)
      → ((a : A) → f a ≡ (g a).0)
      → next_shard f r ≡ (go_on_with r g).0
  next_shard-go_on_with f g (a, true) h = h a
  next_shard-go_on_with f g (a, false) h = refl

  for_each_in-visit_all :
      (now : ℕ) (shs : List Shard) (a : A)
      → for_each_in now fn shs a ≡ (visit_all (visits_in now shs) a).0
  unfolding for_each_in visits_in
  for_each_in-visit_all now [] a = unfold visit_all in refl
  for_each_in-visit_all now (sh ∷ shs) a =
      ap (next_shard (for_each_in now fn shs)) (for_each_of-visit_all now sh.items a)
      ∙ next_shard-go_on_with (for_each_in now fn shs) (visit_all (visits_in now shs))
          (visit_all (visits_of now sh.items) a) (for_each_in-visit_all now shs)
      ∙ ap (λ (r : A × Bool). r.0)
          (sym (visit_all-append (visits_of now sh.items) (visits_in now shs) a))

  -- `ForEach` calls back on every entry that has not expired, shard after shard, and stops after
  -- the first callback that returns false.
  pub for_each-visit_all :
      (now : ℕ) (s : Store) (a : A) → for_each now fn s a ≡ (visit_all (visits_in now s.shards) a).0
  unfolding for_each
  for_each-visit_all now s a = for_each_in-visit_all now s.shards a
