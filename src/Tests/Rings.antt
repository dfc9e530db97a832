-- ===== src/Tests/Rings.antt =====
-- A ring of two nodes with three virtual nodes each, sorted by insertion; whole numbers stand for
-- floating-point ones.
use distributed_cache_system.Prelude.{
  ℕ, suc, ◌+◌, ◌*◌, ◌/◌, ◌≤◌, ◌≡◌, refl, ap, ◌∙◌, Bool, true, false, Bool-cases, inl, inr, some,
  List, [], ◌∷◌, Str, codes, elem, without, if◌then◌else◌, leb, arith, pos, length, take, min,
  str_eq,
}
use distributed_cache_system.Prelude.Assoc.{lookup, insert}
use distributed_cache_system.Ring.{
  VNode, Ring, Float64, new_ring, add_node, remove_node, get_nodes, has_node, size,
}
use distributed_cache_system.Ring.Failover.{get_nodes_lem, remove_node-get_nodes}
use distributed_cache_system.Ring.Order.{Above, IsSorted, SortSlice, count_if, Above-mono}
use distributed_cache_system.Ring.Owners.{Nodup}
use distributed_cache_system.Ring.Valid.{IsValid, new_ring-IsValid, add_node-IsValid}

abbrev put : VNode → List VNode → List VNode
put v [] = v ∷ []
put v (w ∷ ws) = if leb v.hash w.hash then v ∷ w ∷ ws else w ∷ put v ws

abbrev insertion_sort : List VNode → List VNode
insertion_sort [] = []
insertion_sort (v ∷ vs) = put v (insertion_sort vs)

put-Above : (h : ℕ) (v : VNode) (vs : List VNode) → h ≤ v.hash → Above h vs → Above h (put v vs)
put-Above h v [] p a = (p, tt)
put-Above h v (w ∷ ws) p a = ground (arith, put-Above h v ws p a.1)

put-IsSorted : (v : VNode) (vs : List VNode) → IsSorted vs → IsSorted (put v vs)
put-IsSorted v [] s = (tt, tt)
put-IsSorted v (w ∷ ws) s = elim (Bool-cases (leb v.hash w.hash)) [
  | inl before ↦
      let le : v.hash ≤ w.hash = ground arith in rw before ((le, Above-mono ws le s.0), s)
  | inr after ↦ rw after (put-Above w.hash v ws (ground arith) s.0, put-IsSorted v ws s.1)
]

count_if-put :
    (p : VNode → Bool) (v : VNode) (vs : List VNode) → count_if p (put v vs) ≡ count_if p (v ∷ vs)
count_if-put p v [] = refl
count_if-put p v (w ∷ ws) = ground (arith, count_if-put p v ws)

pub insertion_sort-IsSorted : (vs : List VNode) → IsSorted (insertion_sort vs)
insertion_sort-IsSorted [] = tt
insertion_sort-IsSorted (v ∷ vs) = put-IsSorted v (insertion_sort vs) (insertion_sort-IsSorted vs)

pub count_if-insertion_sort :
    (p : VNode → Bool) (vs : List VNode) → count_if p (insertion_sort vs) ≡ count_if p vs
count_if-insertion_sort p [] = refl
count_if-insertion_sort p (v ∷ vs) =
    count_if-put p v (insertion_sort vs)
    ∙ ap (λ n. if p v then suc n else n) (count_if-insertion_sort p vs)

abbrev pub by_insertion : SortSlice
by_insertion = record {
  sort_slice = insertion_sort;
  sort_slice-IsSorted = insertion_sort-IsSorted;
  sort_slice-count = count_if-insertion_sort;
}

abbrev pub whole_numbers : Float64
whole_numbers = record {
  Number = ℕ;
  of_int64 = λ n. n;
  to_int64 = λ n. n;
  add = λ a b. a + b;
  mul = λ a b. a * b;
  div = λ a b. a / b;
  is_negative = λ n. false;
  zero_point = 0;
  one_point = 1;
  quarter = 0;
}

abbrev east : Str
east = codes "east"

abbrev west : Str
west = codes "west"

abbrev empty_ring : Ring ℕ
empty_ring = new_ring whole_numbers (pos 3) 1

abbrev east_ring : Ring ℕ
east_ring = (add_node insertion_sort east empty_ring).0

abbrev both : Ring ℕ
both = (add_node insertion_sort west east_ring).0

empty_ring-IsValid : IsValid empty_ring
empty_ring-IsValid = new_ring-IsValid whole_numbers (pos 3) 1

east_ring-IsValid : IsValid east_ring
east_ring-IsValid = add_node-IsValid empty_ring empty_ring-IsValid east by_insertion

both-IsValid : IsValid both
both-IsValid = add_node-IsValid east_ring east_ring-IsValid west by_insertion

get_nodes_lem_example :
    (result : List Str) × (get_nodes (codes "apple") 2 both ≡ some result)
    × Nodup result
    × ((q : Str) → elem q result ≡ true → has_node q both ≡ true)
    × (length result ≡ min 2 (size both))
get_nodes_lem_example = get_nodes_lem both both-IsValid (codes "apple") 2

has_node-west : has_node west both ≡ true
unfolding has_node add_node new_ring insert lookup str_eq
has_node-west = refl

-- The whole walk for a key.
walk : (all : List Str) × (get_nodes (codes "apple") (size both) both ≡ some all)
walk =
    let answer = get_nodes_lem both both-IsValid (codes "apple") (size both) in (answer.0, answer.1)

remove_node-get_nodes_example :
    get_nodes (codes "apple") 1 (remove_node west both).0 ≡ some (take 1 (without west walk.0))
remove_node-get_nodes_example =
    remove_node-get_nodes both both-IsValid west (codes "apple") 1 walk.0 has_node-west walk.1

abbrev three : List VNode
three =
    record { hash = 10; node_id = east; index = 0 }
    ∷ record { hash = 20; node_id = west; index = 0 }
    ∷ record { hash = 30; node_id = east; index = 1 }
    ∷ []
