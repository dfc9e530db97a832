-- ===== src/CacheNode/Configured.antt =====
-- cmd/cachenode/main.go: the numbers of a valid configuration in the parts of a node.
use distributed_cache_system.Prelude.{
  zero, suc, ◌≡◌, ◌≢◌, refl, ap, ◌∙◌, true, false, none, List, Str, codes, str_eq, str_eq_iff,
  arith, if◌then◌else◌, ℤ, pos, negsuc,
}
use distributed_cache_system.Prelude.Duration.{is_positive}
use distributed_cache_system.CacheNode.{new_cache_node}
use distributed_cache_system.Cluster.Replication.{new_replication_manager, replicas_or_default}
use distributed_cache_system.Config.{Config, validate}
use distributed_cache_system.Ring.{Float64, Ring, VNode, add_node, new_ring, vnodes_or_default}
use distributed_cache_system.Store.{Store}

positive-replicas : (n : ℤ) → is_positive n ≡ true → pos (replicas_or_default n) ≡ n
unfolding replicas_or_default
positive-replicas (pos zero) h = ground arith
positive-replicas (pos (suc n)) h = refl
positive-replicas (negsuc n) h = ground arith

positive-vnodes : (n : ℤ) → is_positive n ≡ true → pos (vnodes_or_default n) ≡ n
unfolding vnodes_or_default
positive-vnodes (pos zero) h = ground arith
positive-vnodes (pos (suc n)) h = refl
positive-vnodes (negsuc n) h = ground arith

add_node-settings :
    {F : Type 0} (sort_slice : List VNode → List VNode) (x : Str) (r : Ring F)
    → ((add_node sort_slice x r).0.node_vnodes ≡ r.node_vnodes)
      × ((add_node sort_slice x r).0.max_load_factor ≡ r.max_load_factor)
unfolding add_node
add_node-settings sort_slice x r = (ground arith, ground arith)

-- In a node that is made from a configuration that Validate accepts, no default takes the place of
-- a configured number: the ring has the configured numbers of virtual nodes and load factor, the
-- replication the configured number of replicas, and the node is named.
pub new_cache_node-validate :
    (fl : Float64) (sort_slice : List VNode → List VNode) (s : Store) (cfg : Config fl.Number)
    → validate fl cfg ≡ none
    → (pos (new_cache_node fl sort_slice s cfg).ring.node_vnodes ≡ cfg.virtual_nodes)
      × ((new_cache_node fl sort_slice s cfg).ring.max_load_factor ≡ cfg.max_load_factor)
      × (pos (new_cache_node fl sort_slice s cfg).replication.replica_count ≡ cfg.replica_count)
      × (cfg.node_id ≢ codes "")
unfolding validate new_cache_node new_replication_manager new_ring
new_cache_node-validate fl sort_slice s cfg accepted =
    let empty = new_ring fl cfg.virtual_nodes cfg.max_load_factor in
    let (vnodes, factor) = add_node-settings sort_slice cfg.node_id empty in
    let many : is_positive cfg.replica_count ≡ true = ground arith in
    let virtual : is_positive cfg.virtual_nodes ≡ true = ground arith in
    let sound : fl.is_negative cfg.max_load_factor ≡ false = ground arith in
    let named : str_eq cfg.node_id (codes "") ≡ false = ground arith in
    (
      ap (λ n. pos n) vnodes ∙ positive-vnodes cfg.virtual_nodes virtual,
      factor ∙ ap (λ b. if b then fl.quarter else cfg.max_load_factor) sound,
      positive-replicas cfg.replica_count many,
      λ same. ground (arith, str_eq_iff cfg.node_id (codes "")),
    )
