-- ===== src/Ring/Walk.antt =====
-- The clockwise walk around the ring, as a list.
use distributed_cache_system.Prelude.{
  ℕ, zero, suc, ◌+◌, ◌-◌, ◌%◌, ◌≤◌, ◌<◌, ◌==◌, ◌≡◌, refl, sym, ap, ◌∙◌, inl, inr, Bool, true, false,
  some, List, [], ◌∷◌, ◌++◌, Str, elem, elem-append, if◌then◌else◌, ltb, leb, arith, Bool-cases,
  length, length-append, get_elem?, drop, take, keep_if, ltb→lt, ltb→le,
}
use mathlib.Core.List.{append_assoc, append-nil}
use distributed_cache_system.Prelude.Assoc.{Map, has, lookup, insert, lookup-insert}
use distributed_cache_system.Ring.{VNode, search, nodes_walk}
use distributed_cache_system.Ring.Order.{IsSorted, Above}
use distributed_cache_system.Ring.Slices.{drop_at, get_elem?-wrap, length-wrap, drop_past, take-nil}
use distributed_cache_system.Ring.Search.{rank, rank-Above, rank-le, search-rank}

-- The virtual nodes from a hash on, clockwise.
unfoldable pub rotation : ℕ → List VNode → List VNode
rotation hash vs =
    keep_if (λ (v : VNode). leb hash v.hash) vs ++ keep_if (λ (v : VNode). ltb v.hash hash) vs

-- The nodes met first, in order, leaving out those in `met`.
unfoldable pub distinct : List Str → List VNode → List Str
distinct met [] = []
distinct met (v ∷ vs) =
    if elem v.node_id met then distinct met vs else v.node_id ∷ distinct (met ++ v.node_id ∷ []) vs

keep_all :
    (hash h : ℕ) (vs : List VNode)
    → Above h vs
    → hash ≤ h
    → keep_if (λ (v : VNode). leb hash v.hash) vs ≡ vs
keep_all hash h [] a p = refl
keep_all hash h (v ∷ vs) a p = ground (arith, keep_all hash h vs a.1)

keep_none :
    (hash h : ℕ) (vs : List VNode)
    → Above h vs
    → hash ≤ h
    → keep_if (λ (v : VNode). ltb v.hash hash) vs ≡ []
keep_none hash h [] a p = refl
keep_none hash h (v ∷ vs) a p = ground (arith, keep_none hash h vs a.1)

drop-rank :
    (hash : ℕ) (vs : List VNode)
    → IsSorted vs
    → drop (rank hash vs) vs ≡ keep_if (λ (v : VNode). leb hash v.hash) vs
unfolding rank
drop-rank hash [] s = refl
drop-rank hash (v ∷ vs) s =
    ground
      (arith, drop-rank hash vs s.1, keep_all hash v.hash vs s.0, rank-Above hash v.hash vs s.0)

take-rank :
    (hash : ℕ) (vs : List VNode)
    → IsSorted vs
    → take (rank hash vs) vs ≡ keep_if (λ (v : VNode). ltb v.hash hash) vs
unfolding rank
take-rank hash [] s = refl
take-rank hash (v ∷ vs) s =
    ground
      (arith, take-rank hash vs s.1, keep_none hash v.hash vs s.0, rank-Above hash v.hash vs s.0)

-- Starting at the position that `search` returns, the slice wraps around into the rotation.
take_all : (vs : List VNode) → take (length vs) vs ≡ vs
take_all [] = refl
take_all (v ∷ vs) = ap (◌∷◌ v) (take_all vs)

drop_all : (vs : List VNode) → drop (length vs) vs ≡ []
drop_all [] = refl
drop_all (v ∷ vs) = drop_all vs

pub rotation-search :
    (hash : ℕ) (vs : List VNode)
    → IsSorted vs
    → drop (search vs hash) vs ++ take (search vs hash) vs ≡ rotation hash vs
unfolding rotation
rotation-search hash vs s = elim (Bool-cases (ltb (rank hash vs) (length vs))) [
  | inl inside ↦ rw (search-rank vs hash s, inside, drop-rank hash vs s, take-rank hash vs s)
  | inr past ↦
      let full : rank hash vs ≡ length vs = omega (arith, rank-le hash vs, ltb→le _ _ past) in
      let all : keep_if (λ (v : VNode). ltb v.hash hash) vs ≡ vs =
        sym (take-rank hash vs s) ∙ rw full (take_all vs) in
      let nothing : keep_if (λ (v : VNode). leb hash v.hash) vs ≡ [] =
        sym (drop-rank hash vs s) ∙ rw full (drop_all vs) in
      rw (search-rank vs hash s, past, all, nothing) (append-nil vs)
]

-- The loop of `GetNodes` is a recursion on the nodes still to be read.
collect : ℕ → List VNode → Map Bool → List Str → List Str
collect n [] seen result = result
collect n (v ∷ vs) seen result = elim (ltb (length result) n) [
  | false ↦ result
  | true ↦ elim (has v.node_id seen) [
    | true ↦ collect n vs seen result
    | false ↦ collect n vs (insert v.node_id true seen) (result ++ v.node_id ∷ [])
  ]
]

nodes_walk-collect :
    (vs : List VNode) (k n left i : ℕ) (seen : Map Bool) (result : List Str)
    → k < length vs
    → i + left ≡ length vs
    → nodes_walk vs k n left i seen result
      ≡ some (collect n (drop i (drop k vs ++ take k vs)) seen result)
unfolding nodes_walk collect
nodes_walk-collect vs k n zero i seen result hk e =
    rw (drop_past (drop k vs ++ take k vs) i (omega (arith, length-wrap k vs (omega arith))))
nodes_walk-collect vs k n (suc left) i seen result hk e =
    let rot = drop k vs ++ take k vs in
    let (v, here, split) = drop_at rot i (omega (arith, length-wrap k vs (omega arith))) in
    let read : get_elem? vs ((k + i) % length vs) ≡ some v =
      get_elem?-wrap vs k i hk (omega arith) ∙ here in
    let next : suc i ≡ i + 1 = omega arith in
    let split' : drop i rot ≡ v ∷ drop (i + 1) rot = rw next at split in
    rw split' (
      ground (
        arith,
        read,
        nodes_walk-collect vs k n left (i + 1) seen result hk (omega arith),
        nodes_walk-collect vs k n left (i + 1) (insert v.node_id true seen)
            (result ++ v.node_id ∷ []) hk (omega arith),
      ))

-- The set of seen nodes is the result so far.
abbrev Agrees : Map Bool → List Str → Type 0
Agrees seen result = (q : Str) → has q seen ≡ elem q result

Agrees-insert :
    (seen : Map Bool) (result : List Str) (k : Str)
    → Agrees seen result
    → Agrees (insert k true seen) (result ++ k ∷ [])
Agrees-insert seen result k h q =
    ground (arith, lookup-insert k q true seen, elem-append q result (k ∷ []), h q)

collect-distinct :
    (n : ℕ) (vs : List VNode) (seen : Map Bool) (result : List Str)
    → Agrees seen result
    → collect n vs seen result ≡ result ++ take (n - length result) (distinct result vs)
unfolding collect distinct
collect-distinct n [] seen result h = rw (take-nil (n - length result), append-nil)
collect-distinct n (v ∷ vs) seen result h = elim (Bool-cases (ltb (length result) n)) [
  | inr full ↦
      let e : n - length result ≡ 0 = omega (arith, ltb→le _ _ full) in
      rw (full, collect, e) (sym (append-nil result))
  | inl more ↦
      let lt = ltb→lt _ _ more in
      let e : n - length result ≡ suc (n - (length result + 1)) = omega arith in
      elim (Bool-cases (elem v.node_id result)) [
        | inl met ↦ ground (arith, h v.node_id, collect-distinct n vs seen result h)
        | inr fresh ↦
            let rest =
              collect-distinct n vs (insert v.node_id true seen) (result ++ v.node_id ∷ [])
                (Agrees-insert seen result v.node_id h) in
            let l = length-append result (v.node_id ∷ []) in
            let close : collect n vs (insert v.node_id true seen) (result ++ v.node_id ∷ [])
                ≡ result
                  ++ take (suc (n - (length result + 1)))
                      (v.node_id ∷ distinct (result ++ v.node_id ∷ []) vs) =
              rest ∙ rw (l, append_assoc) in
            rw e (ground (arith, h v.node_id, close))
      ]
]

-- The whole loop of `GetNodes`.
pub walk-distinct :
    (hash n : ℕ) (vs : List VNode)
    → IsSorted vs
    → (if length vs == 0 then some [] else nodes_walk vs (search vs hash) n (length vs) 0 [] [])
      ≡ some (take n (distinct [] (rotation hash vs)))
unfolding rotation distinct
walk-distinct hash n [] s = rw (take-nil n)
walk-distinct hash n (v ∷ vs) s =
    let k = search (v ∷ vs) hash in
    let inside : k < length (v ∷ vs) = ground (arith, search-rank (v ∷ vs) hash s) in
    let e : n - 0 ≡ n = omega arith in
    let filled : (length (v ∷ vs) == 0) ≡ false = ground arith in
    let listed =
      collect-distinct n (drop k (v ∷ vs) ++ take k (v ∷ vs)) [] [] (unfold lookup in λ q. refl) in
    rw filled (
      nodes_walk-collect (v ∷ vs) k n (length (v ∷ vs)) 0 [] [] inside (omega arith)
      ∙ ap some (
          listed
          ∙ ap (λ m. take m (distinct [] (drop k (v ∷ vs) ++ take k (v ∷ vs)))) e
          ∙ ap (λ l. take n (distinct [] l)) (rotation-search hash (v ∷ vs) s)))
