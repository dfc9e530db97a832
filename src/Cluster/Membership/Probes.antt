-- ===== src/Cluster/Membership/Probes.antt =====
-- internal/cluster/membership.go: messages and rounds of probing, and the timers of suspected nodes.
use distributed_cache_system.Prelude.{
  ℕ, ◌+◌, ◌<◌, ◌≡◌, refl, Bool, Bool-cases, Option-cases, some, List, [], ◌∷◌, Str, str_eq, arith,
  inl, inr, not, ◌||◌, ◌&&◌, ◌==◌, length, get_elem?-some, take, keep_if,
}
use distributed_cache_system.Prelude.Assoc.{lookup, insert}
use distributed_cache_system.Cluster.Node
use distributed_cache_system.Cluster.Node.{NodeInfo, touch, is_alive, get_all}
use distributed_cache_system.Cluster.Membership.{
  Membership, MembershipUpdate, SwimMessage, msg_ping, msg_ack, msg_ping_req, msg_join, msg_other,
  MessageType, is_blocked, send, drain_updates,
}
use distributed_cache_system.Cluster.Membership.Transitions.{
  write_node, mark_suspect, apply_update_among,
}
use distributed_cache_system.Cluster.Membership.Messages.{
  Round, Wait, acked, timed_out, stopped, await, candidates, handle_ping, handle_ack, handle_join,
  handle_ping_req, handle_message, receive, apply_updates, ping_random_member, send_ping_and_wait,
  send_ping_reqs, send_to_proxies,
}
use distributed_cache_system.Cluster.Membership.Suspicion.{
  Watched, Discreet, apply_update-Watched, mark_suspect-Watched, rewrite-Guarded,
}

-- What other goroutines do meanwhile keeps the timers.
abbrev pub Keeps : (Membership → Membership) → Type 0
Keeps during = (m : Membership) → Watched m → Watched (during m)

module _ (resolves : Str → Bool) (during : Membership → Membership) (keeps : Keeps during)
    (wait : Wait) where
  await-Watched :
      (w : Wait) (target : Str) (m : Membership) → Watched m → Watched (await during w target m).0
  unfolding await
  await-Watched acked target m v = keeps m v
  await-Watched timed_out target m v = record { guarded = (keeps m v).guarded }
  await-Watched stopped target m v = keeps m v

  send_ping_and_wait-Watched :
      (addr target : Str) (m : Membership)
      → Watched m
      → Watched (send_ping_and_wait resolves during wait addr target m).0
  unfolding send_ping_and_wait drain_updates send
  send_ping_and_wait-Watched addr target m v =
      elim (Bool-cases (is_blocked target m || not (resolves addr))) [
        | inl cut ↦ rw cut v
        | inr free ↦ rw free (await-Watched wait target _ (record { guarded = v.guarded }))
      ]

  send_to_proxies-Watched :
      (target : Str) (ps : List NodeInfo) (m : Membership)
      → Watched m
      → Watched (send_to_proxies resolves target ps m)
  unfolding send_to_proxies send
  send_to_proxies-Watched target [] m v = v
  send_to_proxies-Watched target (p ∷ ps) m v =
      elim (Bool-cases (is_blocked p.id m || not (resolves p.gossip_addr))) [
        | inl cut ↦ rw cut (send_to_proxies-Watched target ps m v)
        | inr free ↦ rw free (send_to_proxies-Watched target ps _ (record { guarded = v.guarded }))
      ]

  send_ping_reqs-Watched :
      (shuffle : List NodeInfo → List NodeInfo) (target : NodeInfo) (m : Membership)
      → Watched m
      → Watched (send_ping_reqs resolves shuffle during wait target m).0
  unfolding send_ping_reqs
  send_ping_reqs-Watched shuffle target m v =
      let proxies =
        keep_if
          (λ (n : NodeInfo).
            not (str_eq n.id m.self_id) && not (str_eq n.id target.id) && is_alive n.status)
          (get_all m.registry) in
      let m' = record m { pending_acks = insert target.id tt m.pending_acks } in
      let ps = take m.ping_req_count (shuffle proxies) in
      elim (Bool-cases (length proxies == 0)) [
        | inl nobody ↦ rw nobody v
        | inr some_proxy ↦ rw some_proxy (
            await-Watched wait target.id (send_to_proxies resolves target.id ps m')
              (send_to_proxies-Watched target.id ps m' (record { guarded = v.guarded })))
      ]

  handle_ping_req-Watched :
      (msg : SwimMessage) (from : Str) (m : Membership)
      → Watched m
      → Watched (handle_ping_req resolves during wait msg from m)
  unfolding handle_ping_req send
  handle_ping_req-Watched msg from m v = elim (Option-cases (Node.get msg.target_id m.registry)) [
    | inl absent ↦ rw (handle_ping_req, absent) v
    | inr (info, present) ↦
        let asked = send_ping_and_wait resolves during wait info.gossip_addr msg.target_id m in
        let after = send_ping_and_wait-Watched info.gossip_addr msg.target_id m v in
        elim (Bool-cases asked.1) [
          | inl answered ↦
              rw (handle_ping_req, present, answered) (record { guarded = after.guarded })
          | inr silent ↦ rw (handle_ping_req, present, silent) after
        ]
  ]

  handle_ack-Watched :
      (now : ℕ) (msg : SwimMessage) (m : Membership) → Watched m → Watched (handle_ack now msg m)
  unfolding handle_ack write_node touch Node.get
  handle_ack-Watched now msg m v = elim (Option-cases (lookup msg.sender_id m.registry.nodes)) [
    | inl absent ↦ rw (handle_ack, Node.get, absent) (record { guarded = v.guarded })
    | inr (info, present) ↦
        rw (handle_ack, Node.get, present)
          (record {
            guarded =
                rewrite-Guarded m.registry.nodes m.suspicion_timers v.guarded msg.sender_id
                  (touch now info) info present refl;
          })
  ]

  apply_updates-Watched :
      (meanwhile : ℕ → Membership → Membership) (now : ℕ) (us : List MembershipUpdate)
      (m : Membership)
      → ((i : ℕ) → Discreet (meanwhile i))
      → Watched m
      → Watched (apply_updates meanwhile now us m)
  unfolding apply_updates
  apply_updates-Watched meanwhile now [] m discreet v = v
  apply_updates-Watched meanwhile now (u ∷ us) m discreet v =
      apply_updates-Watched (λ i. meanwhile (i + 1)) now us
        (apply_update_among (meanwhile 0) now u m) (λ i. discreet (i + 1))
        (apply_update-Watched (meanwhile 0) (discreet 0) now u m v)

  dispatch-Watched :
      (now : ℕ) (msg : SwimMessage) (from : Str) (type : MessageType) (m : Membership)
      → Watched m
      → Watched (elim type [
        | msg_ping ↦ handle_ping from m
        | msg_ack ↦ handle_ack now msg m
        | msg_ping_req ↦ handle_ping_req resolves during wait msg from m
        | msg_join ↦ handle_join from m
        | msg_other n ↦ m
      ])
  unfolding handle_ping handle_join send drain_updates
  dispatch-Watched now msg from msg_ping m v = record { guarded = v.guarded }
  dispatch-Watched now msg from msg_ack m v = handle_ack-Watched now msg m v
  dispatch-Watched now msg from msg_ping_req m v = handle_ping_req-Watched msg from m v
  dispatch-Watched now msg from msg_join m v = record { guarded = v.guarded }
  dispatch-Watched now msg from (msg_other n) m v = v

  -- Handling any packet keeps a timer on every suspected node, if what other goroutines do while an
  -- update is applied and during the probe of a ping-req keeps the timers, and if what they do
  -- while an update is applied suspects no node that was not suspected.
  pub receive-Watched :
      (meanwhile : ℕ → Membership → Membership) (now : ℕ) (msg : SwimMessage) (from : Str)
      (m : Membership)
      → ((i : ℕ) → Discreet (meanwhile i))
      → Watched m
      → Watched (receive meanwhile resolves during wait now msg from m)
  unfolding receive handle_message
  receive-Watched meanwhile now msg from m discreet v =
      elim (Bool-cases (is_blocked msg.sender_id m)) [
        | inl cut ↦ rw cut v
        | inr free ↦ rw free (
            dispatch-Watched now msg from msg.type (apply_updates meanwhile now msg.updates m)
              (apply_updates-Watched meanwhile now msg.updates m discreet v))
      ]

-- A round of probing does not panic and keeps a timer on every suspected node, if the random draws
-- are in range and what runs during the waits keeps the timers.
pub ping_random_member-Watched :
    (e : Round) (m : Membership)
    → ((n : ℕ) → 0 < n → e.intn n < n)
    → Keeps e.during_direct
    → Keeps e.during_indirect
    → Watched m
    → (m' : Membership) × (ping_random_member e m ≡ some m') × Watched m'
unfolding ping_random_member
ping_random_member-Watched e m draws keeps₁ keeps₂ v =
    elim (Bool-cases (length (candidates m) == 0)) [
      | inl nobody ↦ (m, rw nobody refl, v)
      | inr somebody ↦
          let (target, drawn) =
            get_elem?-some (candidates m) (e.intn (length (candidates m)))
              (draws (length (candidates m)) (ground arith)) in
          let first =
            send_ping_and_wait e.resolves e.during_direct e.direct target.gossip_addr target.id m in
          let v₁ =
            send_ping_and_wait-Watched e.resolves e.during_direct keeps₁ e.direct target.gossip_addr
              target.id m v in
          let second =
            send_ping_reqs e.resolves e.shuffle e.during_indirect e.indirect target first.0 in
          let v₂ =
            send_ping_reqs-Watched e.resolves e.during_indirect keeps₂ e.indirect e.shuffle target
              first.0 v₁ in
          elim (Bool-cases first.1) [
            | inl answered ↦ (first.0, rw (somebody, drawn, answered) refl, v₁)
            | inr silent ↦ elim (Bool-cases second.1) [
              | inl relayed ↦ (second.0, rw (somebody, drawn, silent, relayed) refl, v₂)
              | inr lost ↦ (
                mark_suspect e.now target.id second.0,
                rw (somebody, drawn, silent, lost) refl,
                mark_suspect-Watched e.now target.id second.0 v₂,
              )
            ]
          ]
    ]
