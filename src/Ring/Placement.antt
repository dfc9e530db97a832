-- ===== src/Ring/Placement.antt =====
-- The node that `GetNode` picks for a key, under the bound on loads.
use native.Mathlib.Nat.{mod-eq_of_lt}
use distributed_cache_system.Prelude.{
  ℕ, zero, suc, ◌+◌, ◌%◌, ◌<◌, ◌==◌, ◌≡◌, refl, sym, ap, ◌∙◌, inl, inr, Bool, Option, none, some,
  List, [], ◌∷◌, ◌++◌, Str, if◌then◌else◌, arith, Bool-cases, Option-cases, length, get_elem?, drop,
  take,
}
use distributed_cache_system.Ring.{
  VNode, Ring, Float64, search, room_walk, has_room, max_load, get_node, hash_key,
}
use distributed_cache_system.Ring.Order.{IsSorted}
use distributed_cache_system.Ring.Search.{search-rank}
use distributed_cache_system.Ring.Slices.{drop_at, get_elem?-wrap, length-wrap, drop_past}
use distributed_cache_system.Ring.Walk.{rotation, rotation-search}

module _ (room : Str → Bool) where
  abbrev pub first_room : List VNode → Option Str
  first_room [] = none
  first_room (v ∷ vs) = if room v.node_id then some v.node_id else first_room vs

  -- The first node with room, and the first of all if none has room.
  abbrev pub placed : List VNode → Option Str
  placed [] = none
  placed (v ∷ vs) = elim (first_room (v ∷ vs)) [ none ↦ some v.node_id | some x ↦ some x ]

  room_walk-first_room :
      (vs : List VNode) (k left i : ℕ)
      → k < length vs
      → i + left ≡ length vs
      → room_walk vs room k left i ≡ some (first_room (drop i (drop k vs ++ take k vs)))
  unfolding room_walk
  room_walk-first_room vs k zero i hk e =
      rw (drop_past (drop k vs ++ take k vs) i (omega (arith, length-wrap k vs (omega arith)))) refl
  room_walk-first_room vs k (suc left) i hk e =
      let rot = drop k vs ++ take k vs in
      let (v, here, split) = drop_at rot i (omega (arith, length-wrap k vs (omega arith))) in
      let read : get_elem? vs ((k + i) % length vs) ≡ some v =
        get_elem?-wrap vs k i hk (omega arith) ∙ here in
      let next : suc i ≡ i + 1 = omega arith in
      let split' : drop i rot ≡ v ∷ drop (i + 1) rot = rw next at split in
      rw split' (ground (arith, read, room_walk-first_room vs k left (i + 1) hk (omega arith)))

  placed-some : (l : List VNode) (x : Str) → first_room l ≡ some x → placed l ≡ some x
  placed-some [] x h = ground arith
  placed-some (v ∷ vs) x h = ground arith

  placed-none :
      (l : List VNode) (v : VNode)
      → get_elem? l 0 ≡ some v
      → first_room l ≡ none
      → placed l ≡ some v.node_id
  placed-none [] v at h = ground arith
  placed-none (w ∷ ws) v at h = ground arith

  walk-placed :
      (hash : ℕ) (vs : List VNode)
      → IsSorted vs
      → 0 < length vs
      → elim (room_walk vs room (search vs hash) (length vs) 0) [
        | none ↦ none
        | some (some x) ↦ some (some x)
        | some none ↦ elim (get_elem? vs (search vs hash)) [
          | none ↦ none
          | some v ↦ some (some v.node_id)
        ]
      ]
        ≡ some (placed (rotation hash vs))
  walk-placed hash vs s filled =
      let k = search vs hash in
      let inside : k < length vs = ground (arith, search-rank vs hash s) in
      let rot = drop k vs ++ take k vs in
      let turned : rot ≡ rotation hash vs = rotation-search hash vs s in
      let walked : room_walk vs room k (length vs) 0 ≡ some (first_room (rotation hash vs)) =
        room_walk-first_room vs k (length vs) 0 inside (omega arith)
        ∙ ap (λ l. some (first_room l)) turned in
      let (v, here, split) = drop_at rot 0 (omega (arith, length-wrap k vs (omega arith))) in
      let small : (k + 0) % length vs ≡ k =
        mod-eq_of_lt (omega arith) ∙ (let e : k + 0 ≡ k = omega arith in e) in
      let first : get_elem? vs k ≡ some v =
        ap (get_elem? vs) (sym small) ∙ get_elem?-wrap vs k 0 inside filled ∙ here in
      elim (Option-cases (first_room (rotation hash vs))) [
        | inl full ↦
            rw (walked, full, first)
              (ap some (
                sym (
                  placed-none (rotation hash vs) v (ap (λ l. get_elem? l 0) (sym turned) ∙ here)
                    full)))
        | inr (x, fits) ↦ rw (walked, fits) (ap some (sym (placed-some (rotation hash vs) x fits)))
      ]

module _ (fl : Float64) (key : Str) (r : Ring fl.Number) where
  abbrev pub room_of : Str → Bool
  room_of q = has_room r.loads (max_load fl r) q

  -- On sorted virtual nodes, `GetNode` does not panic and returns the first node clockwise from the
  -- key whose load is below the bound, or the first of all if every node is at the bound.
  pub get_node-placed :
      IsSorted r.vnodes
      → get_node fl key r ≡ some (placed room_of (rotation (hash_key key) r.vnodes))
  unfolding get_node
  get_node-placed s = elim (Bool-cases (length r.vnodes == 0)) [
    | inl empty ↦
        let nothing : r.vnodes ≡ [] = ground arith in
        rw (get_node, empty) (rw nothing (unfold rotation in refl))
    | inr filled ↦
        rw (get_node, filled) (walk-placed room_of (hash_key key) r.vnodes s (ground arith))
  ]
