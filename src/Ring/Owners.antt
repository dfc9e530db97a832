-- ===== src/Ring/Owners.antt =====
-- The nodes responsible for a key, in the order of the walk, and what `GetNodes` returns of them.
use distributed_cache_system.Prelude.{
  ℕ, ◌+◌, ◌≡◌, refl, ap, ◌∙◌, inl, inr, Bool, false, not, ◌&&◌, some, List, [], ◌∷◌, ◌++◌, Str,
  elem, elem-append, str_eq, str_eq_iff, str_eq_refl, if◌then◌else◌, ltb, leb, arith, Bool-cases,
  length, take, keep_if, without,
}
use distributed_cache_system.Ring.{VNode, Ring, get_nodes, hash_key}
use distributed_cache_system.Ring.Order.{IsSorted, count_if}
use distributed_cache_system.Ring.Walk.{rotation, distinct, walk-distinct}

abbrev pub owners : Str → List VNode → List Str
owners key vs = distinct [] (rotation (hash_key key) vs)

-- `GetNodes` returns the first of the owners.
pub get_nodes-owners :
    {F : Type 0} (key : Str) (n : ℕ) (r : Ring F)
    → IsSorted r.vnodes
    → get_nodes key n r
      ≡ some (take (if ltb (length r.nodes) n then length r.nodes else n) (owners key r.vnodes))
unfolding get_nodes
get_nodes-owners key n r s =
    walk-distinct (hash_key key) (if ltb (length r.nodes) n then length r.nodes else n) r.vnodes s

-- Whether a virtual node belongs to a node.
abbrev pub belongs : Str → VNode → Bool
belongs q v = str_eq v.node_id q

pub count_if-append :
    (p : VNode → Bool) (vs ws : List VNode) → count_if p (vs ++ ws) ≡ count_if p vs + count_if p ws
count_if-append p [] ws = omega arith
count_if-append p (v ∷ vs) ws = ground (arith, count_if-append p vs ws)

count_if-split :
    (p : VNode → Bool) (hash : ℕ) (vs : List VNode)
    → count_if p (keep_if (λ (v : VNode). leb hash v.hash) vs)
        + count_if p (keep_if (λ (v : VNode). ltb v.hash hash) vs)
      ≡ count_if p vs
count_if-split p hash [] = refl
count_if-split p hash (v ∷ vs) = ground (arith, count_if-split p hash vs)

pub count_if-rotation :
    (p : VNode → Bool) (hash : ℕ) (vs : List VNode) → count_if p (rotation hash vs) ≡ count_if p vs
unfolding rotation
count_if-rotation p hash vs = count_if-append p _ _ ∙ count_if-split p hash vs

elem-distinct :
    (q : Str) (met : List Str) (vs : List VNode)
    → elem q (distinct met vs) ≡ (not (elem q met) && ltb 0 (count_if (belongs q) vs))
unfolding distinct
elem-distinct q met [] = ground arith
elem-distinct q met (v ∷ vs) = ground (
  arith,
  elem-distinct q met vs,
  elem-distinct q (met ++ v.node_id ∷ []) vs,
  elem-append q met (v.node_id ∷ []),
  str_eq_iff v.node_id q,
)

-- A node owns a key, at some rank, exactly when it has a virtual node.
pub elem-owners :
    (q key : Str) (vs : List VNode) → elem q (owners key vs) ≡ ltb 0 (count_if (belongs q) vs)
elem-owners q key vs = ground (
  arith,
  elem-distinct q [] (rotation (hash_key key) vs),
  count_if-rotation (belongs q) (hash_key key) vs,
)

-- No text stands twice.
abbrev pub Nodup : List Str → Type 0
Nodup [] = Unit {0}
Nodup (k ∷ ks) = (elem k ks ≡ false) × Nodup ks

distinct-Nodup : (met : List Str) (vs : List VNode) → Nodup (distinct met vs)
unfolding distinct
distinct-Nodup met [] = tt
distinct-Nodup met (v ∷ vs) = ground (
  arith,
  distinct-Nodup met vs,
  distinct-Nodup (met ++ v.node_id ∷ []) vs,
  elem-distinct v.node_id (met ++ v.node_id ∷ []) vs,
  elem-append v.node_id met (v.node_id ∷ []),
  str_eq_refl v.node_id,
)

pub owners-Nodup : (key : Str) (vs : List VNode) → Nodup (owners key vs)
owners-Nodup key vs = distinct-Nodup [] (rotation (hash_key key) vs)

-- The virtual nodes of the other nodes.
abbrev pub others : Str → List VNode → List VNode
others x = keep_if (λ (v : VNode). not (str_eq v.node_id x))

keep_if-append :
    (p : VNode → Bool) (vs ws : List VNode) → keep_if p (vs ++ ws) ≡ keep_if p vs ++ keep_if p ws
keep_if-append p [] ws = refl
keep_if-append p (v ∷ vs) ws = ground (arith, keep_if-append p vs ws)

keep_if-swap :
    (p q : VNode → Bool) (vs : List VNode) → keep_if p (keep_if q vs) ≡ keep_if q (keep_if p vs)
keep_if-swap p q [] = refl
keep_if-swap p q (v ∷ vs) = ground (arith, keep_if-swap p q vs)

rotation-others :
    (hash : ℕ) (x : Str) (vs : List VNode)
    → rotation hash (others x vs) ≡ others x (rotation hash vs)
unfolding rotation
rotation-others hash x vs = rw (
  keep_if-append (λ (v : VNode). not (str_eq v.node_id x)),
  keep_if-swap (λ (v : VNode). leb hash v.hash) (λ (v : VNode). not (str_eq v.node_id x)) vs,
  keep_if-swap (λ (v : VNode). ltb v.hash hash) (λ (v : VNode). not (str_eq v.node_id x)) vs,
)

distinct-others :
    (x : Str) (met met' : List Str) (vs : List VNode)
    → ((q : Str) → str_eq q x ≡ false → elem q met ≡ elem q met')
    → distinct met (others x vs) ≡ without x (distinct met' vs)
unfolding distinct
distinct-others x met met' [] h = refl
distinct-others x met met' (v ∷ vs) h = elim (Bool-cases (str_eq v.node_id x)) [
  | inl hit ↦
      let grown : (q : Str) → str_eq q x ≡ false → elem q met ≡ elem q (met' ++ v.node_id ∷ []) =
        λ q ne. ground (
          arith,
          h q ne,
          elem-append q met' (v.node_id ∷ []),
          str_eq_iff v.node_id q,
          str_eq_iff v.node_id x,
          str_eq_iff q x,
        ) in
      ground (
        arith,
        distinct-others x met met' vs h,
        distinct-others x met (met' ++ v.node_id ∷ []) vs grown,
      )
  | inr miss ↦
      let grown : (q : Str)
          → str_eq q x ≡ false
          → elem q (met ++ v.node_id ∷ []) ≡ elem q (met' ++ v.node_id ∷ []) =
        λ q ne. ground (
          arith,
          h q ne,
          elem-append q met (v.node_id ∷ []),
          elem-append q met' (v.node_id ∷ []),
        ) in
      ground (
        arith,
        h v.node_id miss,
        distinct-others x met met' vs h,
        distinct-others x (met ++ v.node_id ∷ []) (met' ++ v.node_id ∷ []) vs grown,
      )
]

-- Without a node, the walk meets the others in the same order.
pub owners-others :
    (x key : Str) (vs : List VNode) → owners key (others x vs) ≡ without x (owners key vs)
owners-others x key vs =
    ap (distinct []) (rotation-others (hash_key key) x vs)
    ∙ distinct-others x [] [] (rotation (hash_key key) vs) (λ q h. refl)
