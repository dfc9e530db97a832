-- ===== src/CacheNode/Running.antt =====
-- cmd/cachenode/main.go: a node from its start through any events about other nodes.
use distributed_cache_system.Prelude.{
  zero, suc, ◌<◌, ◌≡◌, ◌≢◌, refl, sym, ap, ◌∙◌, ◌||◌, inl, inr, Bool, true, false, Option-cases,
  some, List, [], ◌∷◌, Str, str_eq, str_eq_refl, arith, if◌then◌else◌, ℤ, pos, negsuc,
}
use distributed_cache_system.Prelude.Assoc
use distributed_cache_system.Prelude.Assoc.{has}
use distributed_cache_system.CacheNode.{
  CacheNode, Delivery, new_cache_node, node_up, on_event, on_events,
}
use distributed_cache_system.CacheNode.Peers.{
  connected, Changes, has_node-add_node, node_up-Changes, same-Changes, known, reachable, switched,
  member_after, link_after,
}
use distributed_cache_system.Cluster.Membership.{
  MembershipEventType, event_join, event_alive, event_suspect, event_dead, event_left,
}
use distributed_cache_system.Cluster.Node
use distributed_cache_system.Cluster.Node.{NodeInfo}
use distributed_cache_system.Cluster.Replication.{new_replication_manager, replicas_or_default}
use distributed_cache_system.Config.{Config}
use distributed_cache_system.Ring.{Float64, has_node, new_ring}
use distributed_cache_system.Ring.Order.{SortSlice}
use distributed_cache_system.Ring.Valid.{new_ring-IsValid, add_node-IsValid}
use distributed_cache_system.Store.{Store}
use distributed_cache_system.CacheNode.Steps.{
  IsRunning, node_up-IsRunning, remove_from_ring-IsRunning,
}

-- Events about other nodes.
abbrev pub AboutOthers : Str → List Delivery → Type 0
AboutOthers id [] = Unit
AboutOthers id (d ∷ ds) = (d.event.node_id ≢ id) × AboutOthers id ds

-- The switch keeps an order of two truth values.
switched_mono :
    (t : MembershipEventType) (k l b c : Bool)
    → (l ≡ true → k ≡ true)
    → (c ≡ true → b ≡ true)
    → switched t l c ≡ true
    → switched t k b ≡ true
switched_mono event_join k true b c kl cb h = ground (arith, kl refl)
switched_mono event_join k false b c kl cb h = ground (arith, cb (ground arith))
switched_mono event_alive k true b c kl cb h = ground (arith, kl refl)
switched_mono event_alive k false b c kl cb h = ground (arith, cb (ground arith))
switched_mono event_suspect k l b c kl cb h = cb h
switched_mono event_dead k l b c kl cb h = h
switched_mono event_left k l b c kl cb h = h

reachable-known : (dials : Str → Bool) (d : Delivery) → reachable dials d ≡ true → known d ≡ true
reachable-known dials d h = elim (Option-cases (Node.get d.event.node_id d.registry)) [
  | inl absent ↦ ground arith
  | inr (info, present) ↦ rw (known, present) refl
]

below :
    (here : Bool) {b b' m c l : Bool}
    → (l ≡ true → m ≡ true)
    → (c ≡ true → b ≡ true)
    → b' ≡ (if here then m else b)
    → (if here then l else c) ≡ true
    → b' ≡ true
below true lm cb e h = e ∙ lm h
below false lm cb e h = e ∙ cb h

-- Only members are connected to.
abbrev pub IsLinked : {F : Type 0} → CacheNode F → Type 0
IsLinked n = (q : Str) → connected q n ≡ true → has_node q n.ring ≡ true

module _ {F : Type 0} (so : SortSlice) (dials : Str → Bool) (id : Str) where
  -- A node that is up: the two kinds of events are handled alike.
  up-IsRunning :
      (d : Delivery) (n : CacheNode F)
      → d.event.node_id ≢ id
      → IsRunning id n
      → n.registry ≡ d.registry
      → (n' : CacheNode F) × (node_up so.sort_slice dials d.event.node_id n ≡ n')
        × IsRunning id n'
        × Changes d.event.node_id (λ b. b || known d) (λ b. b || reachable dials d) n n'
  unfolding node_up
  up-IsRunning d n other r shared =
      let x = d.event.node_id in
      let foreign : x ≢ n.node_id = λ e. other (e ∙ r.named) in
      let up = node_up-IsRunning so dials x id n r in
      let here : Node.get x d.registry ≡ Node.get x n.registry = ap (Node.get x) (sym shared) in
      elim (Option-cases (Node.get x n.registry)) [
        | inl unknown ↦ (
          n,
          rw (node_up, unknown) refl,
          r,
          rw (known, reachable, here ∙ unknown) (λ q. (ground arith, ground arith)),
        )
        | inr (info, present) ↦ (
          node_up so.sort_slice dials x n,
          refl,
          up,
          rw (known, reachable, here ∙ present)
              (λ q.
                let (member, link) =
                  node_up-Changes dials x so.sort_slice n info foreign present q in
                (ground (arith, member), link)),
        )
      ]

  dispatch-IsRunning :
      (t : MembershipEventType) (d : Delivery) (n : CacheNode F)
      → d.event.node_id ≢ id
      → IsRunning id n
      → IsLinked n
      → n.registry ≡ d.registry
      → (n' : CacheNode F) × (on_event so.sort_slice dials d.now (record d.event { type = t }) n
          ≡ some n')
        × IsRunning id n'
        × Changes d.event.node_id (switched t (known d)) (switched t (reachable dials d)) n n'
  unfolding on_event
  dispatch-IsRunning event_join d n other r linked shared =
      let (n', up, r', c) = up-IsRunning d n other r shared in (n', ap (λ m. some m) up, r', c)
  dispatch-IsRunning event_alive d n other r linked shared =
      let (n', up, r', c) = up-IsRunning d n other r shared in (n', ap (λ m. some m) up, r', c)
  dispatch-IsRunning event_suspect d n other r linked shared =
      (n, refl, r, same-Changes d.event.node_id n)
  dispatch-IsRunning event_dead d n other r linked shared =
      remove_from_ring-IsRunning so dials d.event.node_id id d.now n other r
        (linked d.event.node_id)
  dispatch-IsRunning event_left d n other r linked shared =
      remove_from_ring-IsRunning so dials d.event.node_id id d.now n other r
        (linked d.event.node_id)

  -- What becomes of a node's peers keeps it so that only members are connected to.
  Changes-IsLinked :
      (t : MembershipEventType) (d : Delivery) (n n' : CacheNode F)
      → Changes d.event.node_id (switched t (known d)) (switched t (reachable dials d)) n n'
      → IsLinked n
      → IsLinked n'
  Changes-IsLinked t d n n' c linked q h =
      below (str_eq d.event.node_id q)
        (switched_mono t (known d) (reachable dials d) (has_node q n.ring) (connected q n)
          (reachable-known dials d) (linked q))
        (linked q) (c q).0 (sym (c q).1 ∙ h)

  pub on_events-IsRunning :
      (ds : List Delivery) (n : CacheNode F)
      → AboutOthers id ds
      → IsRunning id n
      → IsLinked n
      → (n' : CacheNode F) × (on_events so.sort_slice dials ds n ≡ some n')
        × IsRunning id n'
        × ((q : Str)
            → (has_node q n'.ring ≡ member_after q ds (has_node q n.ring))
              × (connected q n' ≡ link_after dials q ds (connected q n)))
  unfolding on_events
  on_events-IsRunning [] n others r linked = (n, refl, r, λ q. (refl, refl))
  on_events-IsRunning (d ∷ ds) n others r linked =
      let shared : CacheNode F = record n { registry = d.registry } in
      let r₀ : IsRunning id shared = record {
        named = r.named;
        ringed = r.ringed;
        member = r.member;
        replicating = r.replicating;
        replicated = r.replicated;
      } in
      let (n₁, one, r₁, c) = dispatch-IsRunning d.event.type d shared others.0 r₀ linked refl in
      let (n', rest, r', after) =
        on_events-IsRunning ds n₁ others.1 r₁
          (Changes-IsLinked d.event.type d shared n₁ c linked) in
      (
        n',
        rw one rest,
        r',
        λ q. (
          (after q).0 ∙ ap (member_after q ds) (c q).0,
          (after q).1 ∙ ap (link_after dials q ds) (c q).1,
        ),
      )

replicas_positive : (n : ℤ) → 0 < replicas_or_default n
unfolding replicas_or_default
replicas_positive (pos zero) = omega arith
replicas_positive (pos (suc n)) = omega arith
replicas_positive (negsuc n) = omega arith

only_self :
    (fl : Float64) (cfg : Config fl.Number) (q : Str)
    → (if str_eq cfg.node_id q
        then true
        else has_node q (new_ring fl cfg.virtual_nodes cfg.max_load_factor))
      ≡ str_eq cfg.node_id q
unfolding has_node new_ring Assoc.lookup
only_self fl cfg q = ground arith

unconnected : (q : Str) (id : Str) (n : ℤ) → has q (new_replication_manager id n).peer_conns ≡ false
unfolding new_replication_manager Assoc.lookup
unconnected q id n = refl

-- A node made from any configuration runs through any sequence of membership events about other
-- nodes without a panic, whatever the registry that it shares with the membership holds at each,
-- with any sort that sorts and keeps the elements. After it, its ring is valid, the node itself is
-- still in it, the replication keeps its name and a positive number of replicas, and the other
-- members and the connections are those that the history tells: a node that joins or is alive
-- again, and is registered, is a member, and connected to if it was or can be dialled; one that is
-- dead or has left is neither.
pub new_cache_node-on_events :
    (fl : Float64) (so : SortSlice) (dials : Str → Bool) (s : Store) (cfg : Config fl.Number)
    (ds : List Delivery)
    → AboutOthers cfg.node_id ds
    → (n : CacheNode fl.Number) × (on_events so.sort_slice dials ds
          (new_cache_node fl so.sort_slice s cfg)
        ≡ some n)
      × IsRunning cfg.node_id n
      × ((q : Str)
          → (has_node q n.ring ≡ member_after q ds (str_eq cfg.node_id q))
            × (connected q n ≡ link_after dials q ds false))
unfolding new_cache_node new_replication_manager
new_cache_node-on_events fl so dials s cfg ds others =
    let start = new_cache_node fl so.sort_slice s cfg in
    let empty = new_ring fl cfg.virtual_nodes cfg.max_load_factor in
    let v = new_ring-IsValid fl cfg.virtual_nodes cfg.max_load_factor in
    let alone : (q : Str) → has_node q start.ring ≡ str_eq cfg.node_id q =
      λ q. has_node-add_node so.sort_slice q cfg.node_id empty ∙ only_self fl cfg q in
    let (n, run, r, after) =
      on_events-IsRunning so dials cfg.node_id ds start others
        (record {
          named = refl;
          ringed = add_node-IsValid empty v cfg.node_id so;
          member = alone cfg.node_id ∙ str_eq_refl cfg.node_id;
          replicating = refl;
          replicated = replicas_positive cfg.replica_count;
        })
        (λ q h. ground (arith, unconnected q cfg.node_id cfg.replica_count)) in
    (
      n,
      run,
      r,
      λ q. (
        (after q).0 ∙ ap (member_after q ds) (alone q),
        (after q).1 ∙ ap (link_after dials q ds) (unconnected q cfg.node_id cfg.replica_count),
      ),
    )
