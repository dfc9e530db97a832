-- ===== src/Tests/Stores.antt =====
-- A store with one shard, a sketch, and a mitigator over the store.
use distributed_cache_system.Prelude.{
  ℕ, zero, suc, ◌+◌, ◌*◌, ◌^◌, ◌≤◌, ◌<◌, ◌≡◌, ◌⊎◌, refl, Bool, true, false, not, ◌&&◌, ◌==◌, ltb,
  elem, str_eq, Option, none, some, List, [], ◌∷◌, Str, codes, if◌then◌else◌, arith, pos, length,
  get_elem?,
}
use distributed_cache_system.Prelude.Assoc.{Map, lookup, Distinct}
use distributed_cache_system.Hash.{fnv32a}
use distributed_cache_system.Hash.Mask.{bit_and-le}
use distributed_cache_system.Detector.{new_detector}
use distributed_cache_system.Store.{
  Entry, Shard, Store, no_stats, shard_index, get_shard, shard_count_of, new_with_shards, get, set,
}
use distributed_cache_system.Store.Create.{new_with_shards-IsValid}
use distributed_cache_system.Store.Methods.{Leaves, purged}
use distributed_cache_system.Store.Reads.{
  not_over, value_of, read_from, left_at, counted, get-Leaves, get-set,
}
use distributed_cache_system.Store.Scan.{keys}
use distributed_cache_system.Store.Scan.Listed.{found, get-keys}
use distributed_cache_system.Store.Valid.{IsValid, view}
use distributed_cache_system.Sketch.{max_uint64, new_count_min_sketch, estimate}
use distributed_cache_system.Sketch.Stream.{Event, access, halve, run, exact, run-estimate}
use distributed_cache_system.Sweeper.{sweep_rounds}
use distributed_cache_system.Sweeper.Rounds.{InRange, State, Sweeps, Adding, sweep_rounds_lem}
use distributed_cache_system.Mitigator.{Mitigator, key_split, get_sharded_key, write_to_shards}
use distributed_cache_system.Mitigator.Copies.{Holds, write_to_shards-Holds}

abbrev one_shard : Map Entry → Store
one_shard m = record { shards = record { items = m } ∷ []; shard_mask = 0; stats = no_stats }

module _ (m : Map Entry) (d : Distinct m) where
  at_zero :
      (i : ℕ) (sh : Shard)
      → get_elem? (one_shard m).shards i ≡ some sh
      → (i ≡ 0) × (sh ≡ record { items = m })
  at_zero zero sh h = (refl, ground arith)
  at_zero (suc i) sh h = ground arith

  one_shard-IsValid : IsValid (one_shard m)
  unfolding shard_index
  one_shard-IsValid = record {
    masked = omega arith;
    distinct = λ i sh h. rw ((at_zero i sh h).1) d;
    placed = λ i sh k e h held. omega (arith, (at_zero i sh h).0, bit_and-le _ 0);
  }

abbrev apple : Str
apple = codes "apple"

abbrev red : Str
red = codes "red"

abbrev red_entry : Entry
red_entry = record { value = red; expires_at = 50; created_at = 10 }

abbrev stock : Map Entry
stock = (apple, red_entry) ∷ []

abbrev stocked : Store
stocked = one_shard stock

stocked-IsValid : IsValid stocked
unfolding lookup
stocked-IsValid = one_shard-IsValid stock (refl, tt)

get-set_example :
    (s' : Store) × (s'' : Store) × (set 10 11 apple red (pos 5) stocked ≡ some s')
    × (get (λ x. x) 16 17 apple s' ≡ some (s'', if not_over (pos 5) 11 16 then some red else none))
get-set_example = get-set stocked apple red (pos 5) 10 11 16 17 stocked-IsValid

get-Leaves_example :
    (s' : Store) × (get (λ x. x) 60 61 apple stocked
      ≡ some (s', value_of (purged 60 (view stocked apple))))
    × Leaves
        (read_from stocked apple stocked-IsValid (λ x. x) 60 61)
        apple
        (left_at stocked apple stocked-IsValid (λ x. x) 60 61)
        (counted stocked apple stocked-IsValid (λ x. x) 60 61)
        s'
get-Leaves_example = get-Leaves stocked apple stocked-IsValid (λ x. x) 60 61 stocked-IsValid

new_with_shards-IsValid_example :
    (k : ℕ) × (shard_count_of (pos 5) ≤ 2 ^ k)
    × (2 ^ k < 2 * shard_count_of (pos 5))
    × (((1000 < 2 ^ k) × (new_with_shards 1000 (pos 5) ≡ none))
        ⊎ ((2 ^ k ≤ 1000)
            × ((s : Store) × (new_with_shards 1000 (pos 5) ≡ some s)
                × IsValid s
                × ((q : Str) → view s q ≡ none)
                × (length s.shards ≡ 2 ^ k))))
new_with_shards-IsValid_example =
    new_with_shards-IsValid 1000 (pos 5) (unfold shard_count_of in omega arith)

apple-held : view stocked apple ≡ some red_entry
unfolding view get_shard shard_index fnv32a lookup str_eq
apple-held = refl

get-keys_example :
    (s' : Store) × (read : Option Str) × (get (λ x. x) 50 51 apple stocked ≡ some (s', read))
    × (read ≡ (
        if ltb 0 red_entry.expires_at && ltb red_entry.expires_at 50
        then none
        else some red_entry.value))
    × (elem apple (keys 50 stocked) ≡ (found read && not (ltb 0 50 && red_entry.expires_at == 50)))
get-keys_example = get-keys stocked apple red_entry 50 51 stocked-IsValid apple-held

abbrev count_visit : Str → Str → ℕ → ℕ → ℕ × Bool
count_visit k value ttl n = (n + 1, true)

abbrev history : List Event
history = access apple ∷ access red ∷ halve ∷ access apple ∷ []

run-estimate_example :
    (cms : distributed_cache_system.Sketch.CountMinSketch) × (e : ℕ) × (run history
        (new_count_min_sketch 8 2)
      ≡ some cms)
    × (estimate apple cms ≡ some e)
    × (exact apple history 0 ≤ e)
    × (e ≤ cms.total)
run-estimate_example = run-estimate 8 2 history apple (omega arith)

abbrev first_draw : ℕ → ℕ → ℕ → ℕ
first_draw round i n = 0

first_draw-InRange : (round : ℕ) → InRange (first_draw round)
first_draw-InRange round i n h = h

-- Another goroutine empties the shard and stores one entry after the first round.
abbrev one_set : ℕ → State → State
one_set zero state = ((red, record { value = apple; expires_at = 0; created_at = 3 }) ∷ [], state.1)
one_set (suc i) state = state

abbrev one_left : ℕ → ℕ
one_left zero = 1
one_left (suc i) = 0

one_set-distinct : (i : ℕ) (s : State) → Distinct s.0 → Distinct (one_set i s).0
unfolding lookup
one_set-distinct zero s d = (refl, tt)
one_set-distinct (suc i) s d = d

one_set-bounded :
    (i : ℕ) (s : State) → length (one_set i s).0 + one_left (i + 1) ≤ length s.0 + one_left i
one_set-bounded zero s = omega arith
one_set-bounded (suc i) s = ground arith

one_set-Adding : Adding one_left one_set
one_set-Adding = record { distinct = one_set-distinct; bounded = one_set-bounded }

sweep_rounds_lem_example :
    (state : State) × (sweep_rounds first_draw
        (λ round. 60 + round)
        (λ round. false)
        one_set
        3
        0
        (stock, no_stats)
      ≡ some state)
    × Sweeps (λ round. 60 + round) one_set 0 (stock, no_stats) state
    × Distinct state.0
unfolding lookup
sweep_rounds_lem_example =
    sweep_rounds_lem first_draw (λ round. 60 + round) (λ round. false) first_draw-InRange one_left
      one_set one_set-Adding 3 0 (stock, no_stats) (omega arith) (refl, tt)

abbrev splitter : Mitigator
splitter = record {
  store = stocked;
  detector = new_detector 10 1000;
  shard_count = 4;
  mitigated_keys = (apple, key_split) ∷ [];
  mitigation_count = 1;
}

write_to_shards-Holds_example :
    (m' : Mitigator) × (write_to_shards (λ i. 20 + i) 12 13 apple red (pos 5) splitter ≡ some m')
    × IsValid m'.store
    × Holds red m'.store apple
    × ((client : Str) → Holds red m'.store (get_sharded_key apple client m'))
write_to_shards-Holds_example =
    write_to_shards-Holds apple red (pos 5) (λ i. 20 + i) 12 13 splitter stocked-IsValid
      (omega arith) (omega arith)
