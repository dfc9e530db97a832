-- ===== src/Ring.antt =====
-- internal/hashing/ring.go: consistent hashing with virtual nodes and bounded loads.
-- An `int64` load is its bit pattern, a number below 2^64. The floating-point numbers of the load
-- bound and `sort.Slice` are parameters. `none` is a run-time panic (an index out of range).
-- The callbacks of `AddNode` and `RemoveNode` run exactly when these return true.
pub mod Order
pub mod Search
pub mod Slices
pub mod Walk
pub mod Owners
pub mod Valid
pub mod Failover
pub mod Placement
use distributed_cache_system.Hash.{fnv64a}
use distributed_cache_system.Prelude.{
  ℕ, zero, suc, ◌+◌, ◌-◌, ◌*◌, ◌/◌, ◌%◌, ◌^◌, ◌≤◌, ◌<◌, ◌≡◌, Bool, true, false, not, ◌&&◌, ◌||◌,
  Option, none, some, List, [], ◌∷◌, ◌++◌, map, Str, str_eq, codes, decimal, if◌then◌else◌, ltb,
  leb, ◌==◌, ℤ, pos, negsuc, u64_mod, length, get_elem?, keep_if,
}
use distributed_cache_system.Prelude.Assoc
use distributed_cache_system.Prelude.Assoc.{Map, lookup, insert, has}

-- What the ring uses of `float64`.
pub record Float64 : Type 1 where
  pub Number : Type 0
  pub of_int64 : ℕ → Number
  pub to_int64 : Number → ℕ
  pub add : Number → Number → Number
  pub mul : Number → Number → Number
  pub div : Number → Number → Number
  pub is_negative : Number → Bool
  pub zero_point : Number
  pub one_point : Number
  pub quarter : Number

pub record VNode : Type 0 where
  pub hash : ℕ
  pub node_id : Str
  pub index : ℕ

pub record Ring (F : Type 0) : Type 0 where
  pub vnodes : List VNode
  pub node_vnodes : ℕ
  pub nodes : Map Bool
  pub loads : Map ℕ
  pub max_load_factor : F

-- The signed order of two `int64` patterns.
abbrev pub slt64 : ℕ → ℕ → Bool
slt64 a b = ltb ((a + 2 ^ 63) % u64_mod) ((b + 2 ^ 63) % u64_mod)

unfoldable pub hash_key : Str → ℕ
hash_key key = fnv64a key

-- `fmt.Sprintf("%s#%d", nodeID, index)`, hashed.
unfoldable pub hash_vnode : Str → ℕ → ℕ
hash_vnode node_id index = fnv64a (node_id ++ (codes "#" ++ decimal index))

-- The virtual nodes `i`, `i+1`, … of a node, with `n` of them left.
unfoldable pub vnodes_from : Str → ℕ → ℕ → List VNode
vnodes_from node_id i zero = []
vnodes_from node_id i (suc n) =
    record { hash = hash_vnode node_id i; node_id = node_id; index = i }
    ∷ vnodes_from node_id (i + 1) n

-- `r.nodes[nodeID]`.
unfoldable pub has_node : {F : Type 0} → Str → Ring F → Bool
has_node node_id r = elim (lookup node_id r.nodes) [ none ↦ false | some b ↦ b ]

unfoldable pub vnodes_or_default : ℤ → ℕ
vnodes_or_default (pos zero) = 150
vnodes_or_default (pos (suc n)) = suc n
vnodes_or_default (negsuc n) = 150

unfoldable pub new_ring : (fl : Float64) → ℤ → fl.Number → Ring fl.Number
unfolding vnodes_or_default
new_ring fl vnode_count max_load_factor = record {
  vnodes = [];
  node_vnodes = vnodes_or_default vnode_count;
  nodes = [];
  loads = [];
  max_load_factor = if fl.is_negative max_load_factor then fl.quarter else max_load_factor;
}

-- `sort_slice` is `sort.Slice` by the hash.
unfoldable pub add_node : {F : Type 0} → (List VNode → List VNode) → Str → Ring F → Ring F × Bool
add_node sort_slice node_id r = if has_node node_id r then (r, false) else (
  record r {
    vnodes = sort_slice (r.vnodes ++ vnodes_from node_id 0 r.node_vnodes);
    nodes = insert node_id true r.nodes;
    loads = insert node_id 0 r.loads;
  },
  true,
)

-- The capacity `len(r.vnodes)-r.nodeVnodes` of the filtered slice is left out: it is negative, and a
-- panic, only where a member has fewer virtual nodes than it should.
unfoldable pub remove_node : {F : Type 0} → Str → Ring F → Ring F × Bool
remove_node node_id r =
    if has_node node_id r
    then (
      record r {
        vnodes = keep_if (λ (v : VNode). not (str_eq v.node_id node_id)) r.vnodes;
        nodes = Assoc.delete node_id r.nodes;
        loads = Assoc.delete node_id r.loads;
      },
      true,
    )
    else (r, false)

-- `r.vnodes[i].Hash >= hash`.
unfoldable pub at_least : List VNode → ℕ → ℕ → Bool
at_least vs hash i = elim (get_elem? vs i) [ none ↦ false | some v ↦ leb hash v.hash ]

-- The loop of `sort.Search`: bisection of `[i, j)`.
unfoldable pub bisect : ℕ → (ℕ → Bool) → ℕ → ℕ → ℕ
bisect zero f i j = i
bisect (suc fuel) f i j = elim (ltb i j) [
  | false ↦ i
  | true ↦ elim (f ((i + j) / 2)) [
    | false ↦ bisect fuel f ((i + j) / 2 + 1) j
    | true ↦ bisect fuel f i ((i + j) / 2)
  ]
]

unfoldable pub search : List VNode → ℕ → ℕ
search vs hash =
    let n = length vs in let idx = bisect n (at_least vs hash) 0 n in if leb n idx then 0 else idx

unfoldable pub sum_loads : ℕ → Map ℕ → ℕ
sum_loads total [] = total
sum_loads total ((k, load) ∷ m) = sum_loads ((total + load) % u64_mod) m

unfoldable pub average_load : (fl : Float64) → Ring fl.Number → fl.Number
average_load fl r =
    let n = length r.nodes in
    if n == 0 then fl.zero_point else fl.div (fl.of_int64 (sum_loads 0 r.loads)) (fl.of_int64 n)

unfoldable pub max_load : (fl : Float64) → Ring fl.Number → ℕ
max_load fl r =
    let m = fl.to_int64 (fl.mul (average_load fl r) (fl.add fl.one_point r.max_load_factor)) in
    if slt64 m 1 then 1 else m

-- `load == nil || load.Active.Load() < maxLoad`.
unfoldable pub has_room : Map ℕ → ℕ → Str → Bool
has_room loads bound node_id = elim (lookup node_id loads) [
  | none ↦ true
  | some load ↦ slt64 load bound
]

-- The walk of `GetNode` from step `i` on, with `n` steps left. `some none` is a walk that ended
-- without an answer.
unfoldable pub room_walk : List VNode → (Str → Bool) → ℕ → ℕ → ℕ → Option (Option Str)
room_walk vs room idx zero i = some none
room_walk vs room idx (suc n) i = elim (get_elem? vs ((idx + i) % length vs)) [
  | none ↦ none
  | some v ↦ elim (room v.node_id) [
    | true ↦ some (some v.node_id)
    | false ↦ room_walk vs room idx n (i + 1)
  ]
]

unfoldable pub get_node : (fl : Float64) → Str → Ring fl.Number → Option (Option Str)
get_node fl key r =
    let idx = search r.vnodes (hash_key key) in
    if length r.vnodes == 0
    then some none
    else elim (room_walk r.vnodes (has_room r.loads (max_load fl r)) idx (length r.vnodes) 0) [
      | none ↦ none
      | some (some node_id) ↦ some (some node_id)
      | some none ↦ elim (get_elem? r.vnodes idx) [ none ↦ none | some v ↦ some (some v.node_id) ]
    ]

-- The loop of `GetNodes` from step `i` on, with `left` steps left, for `n` nodes.
unfoldable pub nodes_walk : List VNode → ℕ → ℕ → ℕ → ℕ → Map Bool → List Str → Option (List Str)
nodes_walk vs idx n zero i seen result = some result
nodes_walk vs idx n (suc left) i seen result = elim (ltb (length result) n) [
  | false ↦ some result
  | true ↦ elim (get_elem? vs ((idx + i) % length vs)) [
    | none ↦ none
    | some v ↦ elim (has v.node_id seen) [
      | true ↦ nodes_walk vs idx n left (i + 1) seen result
      | false ↦
          nodes_walk vs idx n left (i + 1) (insert v.node_id true seen) (result ++ v.node_id ∷ [])
    ]
  ]
]

-- `GetNodes`, for a count that is not negative; a negative one panics, and no caller passes it.
unfoldable pub get_nodes : {F : Type 0} → Str → ℕ → Ring F → Option (List Str)
get_nodes key n r =
    let node_count = length r.nodes in
    let wanted = if ltb node_count n then node_count else n in
    if length r.vnodes == 0
    then some []
    else nodes_walk r.vnodes (search r.vnodes (hash_key key)) wanted (length r.vnodes) 0 [] []

unfoldable pub increment_load : {F : Type 0} → Str → Ring F → Ring F
increment_load node_id r = elim (lookup node_id r.loads) [
  | none ↦ r
  | some load ↦ record r { loads = insert node_id ((load + 1) % u64_mod) r.loads }
]

unfoldable pub decrement_load : {F : Type 0} → Str → Ring F → Ring F
decrement_load node_id r = elim (lookup node_id r.loads) [
  | none ↦ r
  | some load ↦ record r { loads = insert node_id ((load + u64_mod - 1) % u64_mod) r.loads }
]

unfoldable pub get_load : {F : Type 0} → Str → Ring F → ℕ
get_load node_id r = elim (lookup node_id r.loads) [ none ↦ 0 | some load ↦ load ]

unfoldable pub size : {F : Type 0} → Ring F → ℕ
size r = length r.nodes

unfoldable pub is_empty : {F : Type 0} → Ring F → Bool
is_empty r = size r == 0

-- `sort_strings` is `sort.Strings`.
unfoldable pub members : {F : Type 0} → (List Str → List Str) → Ring F → List Str
members sort_strings r = sort_strings (map (λ (kv : Str × Bool). kv.0) r.nodes)
