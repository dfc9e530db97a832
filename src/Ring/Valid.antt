-- ===== src/Ring/Valid.antt =====
-- internal/hashing/ring.go: the invariant of a ring, and `AddNode` and `RemoveNode`.
use distributed_cache_system.Prelude.{
  ℕ, zero, suc, ◌+◌, ◌<◌, ◌≡◌, refl, ◌∙◌, inl, inr, Bool, true, some, List, [], ◌∷◌, Str, str_eq,
  str_eq_iff, if◌then◌else◌, arith, Bool-cases, Option-cases, ℤ, pos, negsuc,
}
use distributed_cache_system.Prelude.Assoc
use distributed_cache_system.Prelude.Assoc.{
  Map, lookup, insert, has, Distinct, lookup-insert, lookup-delete,
}
use distributed_cache_system.Ring.{
  VNode, Ring, Float64, has_node, vnodes_from, vnodes_or_default, new_ring, add_node, remove_node,
}
use distributed_cache_system.Ring.Order.{IsSorted, SortSlice, count_if, keep_if-IsSorted}
use distributed_cache_system.Ring.Owners.{belongs, others, count_if-append}

pub record IsValid {F : Type 0} (r : Ring F) : Type 0 where
  pub sorted : IsSorted r.vnodes
  pub weighted : 0 < r.node_vnodes
  -- Every member has its virtual nodes, and nobody else has any.
  pub placed :
      (q : Str) → count_if (belongs q) r.vnodes ≡ (if has q r.nodes then r.node_vnodes else 0)
  pub members : (q : Str) (b : Bool) → lookup q r.nodes ≡ some b → b ≡ true
  pub unique : Distinct r.nodes
  pub loaded : (q : Str) → has q r.loads ≡ has q r.nodes

pub new_ring-IsValid : (fl : Float64) (n : ℤ) (f : fl.Number) → IsValid (new_ring fl n f)
unfolding new_ring lookup
new_ring-IsValid fl n f = record {
  sorted = tt;
  weighted = default_pos n;
  placed = λ q. refl;
  members = λ q b h. ground arith;
  unique = tt;
  loaded = λ q. refl;
}
  where
    default_pos : (n : ℤ) → 0 < vnodes_or_default n
    default_pos (pos zero) = omega arith
    default_pos (pos (suc n)) = omega arith
    default_pos (negsuc n) = omega arith

count_if-vnodes_from :
    (q x : Str) (i n : ℕ) → count_if (belongs q) (vnodes_from x i n) ≡ (if str_eq x q then n else 0)
unfolding vnodes_from
count_if-vnodes_from q x i zero = ground arith
count_if-vnodes_from q x i (suc n) = ground (arith, count_if-vnodes_from q x (i + 1) n)

count_if-others :
    (q x : Str) (vs : List VNode)
    → count_if (belongs q) (others x vs) ≡ (if str_eq x q then 0 else count_if (belongs q) vs)
count_if-others q x [] = ground arith
count_if-others q x (v ∷ vs) =
    ground (
      arith,
      count_if-others q x vs,
      str_eq_iff v.node_id x,
      str_eq_iff v.node_id q,
      str_eq_iff x q,
    )

module _ {F : Type 0} (r : Ring F) (v : IsValid r) (x : Str) where
  pub has_node-has : has_node x r ≡ has x r.nodes
  unfolding has_node
  has_node-has = elim (Option-cases (lookup x r.nodes)) [
    | inl absent ↦ ground arith
    | inr (b, held) ↦ ground (arith, v.members x b held)
  ]

  -- Adding a node keeps the ring valid, whatever sort is used.
  pub add_node-IsValid : (so : SortSlice) → IsValid (add_node so.sort_slice x r).0
  unfolding add_node
  add_node-IsValid so = elim (Bool-cases (has_node x r)) [
    | inl old ↦ rw old v
    | inr fresh ↦ rw fresh (record {
      sorted = so.sort_slice-IsSorted _;
      weighted = v.weighted;
      placed = λ q.
          so.sort_slice-count (belongs q) _
          ∙ ground (
            arith,
            count_if-append (belongs q) r.vnodes (vnodes_from x 0 r.node_vnodes),
            count_if-vnodes_from q x 0 r.node_vnodes,
            v.placed q,
            lookup-insert x q true r.nodes,
            str_eq_iff x q,
            has_node-has,
          );
      members = λ q b h. ground (arith, lookup-insert x q true r.nodes, v.members q b);
      unique = Assoc.insert-Distinct x true r.nodes v.unique;
      loaded = λ q.
          ground (arith, v.loaded q, lookup-insert x q true r.nodes, lookup-insert x q 0 r.loads);
    })
  ]

  -- Removing a node keeps the ring valid.
  pub remove_node-IsValid : IsValid (remove_node x r).0
  unfolding remove_node
  remove_node-IsValid = elim (Bool-cases (has_node x r)) [
    | inr absent ↦ rw absent v
    | inl here ↦ rw here (record {
      sorted = keep_if-IsSorted _ r.vnodes v.sorted;
      weighted = v.weighted;
      placed =
          λ q. ground (arith, count_if-others q x r.vnodes, v.placed q, lookup-delete x q r.nodes);
      members = λ q b h. ground (arith, lookup-delete x q r.nodes, v.members q b);
      unique = Assoc.delete-Distinct x r.nodes v.unique;
      loaded =
          λ q. ground (arith, v.loaded q, lookup-delete x q r.nodes, lookup-delete x q r.loads);
    })
  ]
