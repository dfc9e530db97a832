-- ===== src/Tests/Members.antt =====
-- A node that knows a suspected peer.
use distributed_cache_system.Prelude.{
  ℕ, ◌≤◌, ◌<◌, ◌≡◌, refl, Bool, true, false, none, some, [], ◌∷◌, map, Str, codes, str_eq,
  if◌then◌else◌, arith, Has,
}
use distributed_cache_system.Prelude.Assoc.{lookup}
use distributed_cache_system.Cluster.Node
use distributed_cache_system.Cluster.Node.{
  NodeStatus, alive, suspect, dead, left, is_suspect, is_dead, NodeInfo, NodeRegistry,
  new_node_info,
}
use distributed_cache_system.Cluster.Membership.{
  Membership, MembershipUpdate, SwimMessage, msg_ping,
}
use distributed_cache_system.Cluster.Membership.Transitions.{
  apply_update, apply_update_among, mark_dead, mark_suspect, status_update,
}
use distributed_cache_system.Cluster.Membership.Messages.{
  Round, timed_out, receive, ping_random_member,
}
use distributed_cache_system.Cluster.Membership.Queue
use distributed_cache_system.Cluster.Membership.Queue.{
  queued, newer, sent_again, update_at, enqueue-queued, drain_updates_lem,
}
use distributed_cache_system.Cluster.Membership.Dissemination.{drain_times, drain_times-Has}
use distributed_cache_system.Cluster.Membership.Updates.{
  merged, apply_update-merged, apply_update-newer,
}
use distributed_cache_system.Cluster.Membership.Suspicion.{Watched, Discreet, leave_report-timer}
use distributed_cache_system.Cluster.Membership.Race.{apply_alive-race}
use distributed_cache_system.Cluster.Membership.Refutation.{
  OwnQueued, refutes, apply_update-OwnQueued,
}
use distributed_cache_system.Cluster.Membership.Probes.{
  Keeps, receive-Watched, ping_random_member-Watched,
}

abbrev me : Str
me = codes "me"

abbrev peer : Str
peer = codes "peer"

abbrev node : Str → NodeStatus → NodeInfo
node id status = record {
  id = id;
  grpc_addr = codes "g";
  gossip_addr = codes "u";
  http_addr = codes "h";
  status = status;
  incarnation = 3;
  joined_at = 0;
  last_seen = 0;
}

-- The node `me`, which has registered the peer with a status.
abbrev knowing : NodeStatus → Membership
knowing status = record {
  self_id = me;
  self_info = node me alive;
  registry = record { nodes = (me, node me alive) ∷ (peer, node peer status) ∷ []; self = me };
  incarnation = 0;
  injector = none;
  pending_acks = [];
  update_queue = record { update = status_update peer suspect 3; sent_count = 2 } ∷ [];
  suspicion_timers = (peer, 100) ∷ [];
  suspicion_timeout = 50;
  ping_req_count = 3;
  events = [];
  sent = [];
}

peer_known : (s : NodeStatus) → Node.get peer (knowing s).registry ≡ some (node peer s)
unfolding Node.get lookup str_eq
peer_known s = refl

foreign : str_eq peer me ≡ false
unfolding str_eq
foreign = refl

knowing-Watched : (s : NodeStatus) → Watched (knowing s)
unfolding lookup
knowing-Watched s = record { guarded = λ id n at suspected. ground arith }

apply_update-merged_example :
    Node.get peer (apply_update 70 (status_update peer alive 4) (knowing suspect)).registry ≡ (
      if str_eq peer me
      then Node.get peer (knowing suspect).registry
      else if str_eq peer peer
      then merged 70 (status_update peer alive 4) (Node.get peer (knowing suspect).registry)
      else Node.get peer (knowing suspect).registry)
apply_update-merged_example =
    apply_update-merged 70 (status_update peer alive 4) (knowing suspect) peer

apply_update-newer_example :
    (n' : NodeInfo) × (Node.get peer
        (apply_update 70 (status_update peer alive 4) (knowing suspect)).registry
      ≡ some n')
    × (3 ≤ n'.incarnation)
apply_update-newer_example =
    apply_update-newer 70 (status_update peer alive 4) (knowing suspect) peer (node peer suspect)
      (peer_known suspect)

peer_timer : lookup peer (knowing suspect).suspicion_timers ≡ some 100
unfolding lookup str_eq
peer_timer = refl

leave_report-timer_example :
    (lookup peer (apply_update 70 (status_update peer left 4) (knowing suspect)).suspicion_timers
      ≡ some 100)
    × (Node.get peer
          (mark_dead peer (apply_update 70 (status_update peer left 4) (knowing suspect))).registry
        ≡ some (record (node peer suspect) { status = dead }))
leave_report-timer_example =
    leave_report-timer 70 (status_update peer left 4) (knowing suspect) (node peer suspect) foreign
      (peer_known suspect) (omega arith) 100 refl peer_timer

knowing-OwnQueued : OwnQueued (knowing suspect)
unfolding str_eq
knowing-OwnQueued v h = ground arith

refutes_example :
    (v : MembershipUpdate) × (queued me
        (apply_update 70 (status_update me suspect 5) (knowing suspect)).update_queue
      ≡ some v)
    × (v.status ≡ alive)
    × (5 < v.incarnation)
    × (v.incarnation ≡ (apply_update 70 (status_update me suspect 5) (knowing suspect)).incarnation)
    × (0 ≤ v.incarnation)
refutes_example =
    refutes 70 (status_update me suspect 5) (knowing suspect) knowing-OwnQueued refl refl
      (omega arith)

abbrev idle : Membership → Membership
idle m = m

idle-Keeps : Keeps idle
idle-Keeps m w = w

abbrev everywhere : Str → Bool
everywhere addr = true

abbrev ping : SwimMessage
ping = record {
  type = msg_ping;
  sender_id = peer;
  sender_addr = codes "u";
  target_id = codes "";
  incarnation = 4;
  updates = status_update peer alive 4 ∷ [];
}

-- Another goroutine that raises this node's incarnation while a packet is handled.
abbrev busy : ℕ → Membership → Membership
busy i m = record m { incarnation = 9 }

busy-Discreet : (i : ℕ) → Discreet (busy i)
busy-Discreet i = record {
  keeps = λ m w. record { guarded = w.guarded };
  calms = λ id m calm. calm;
}

receive-Watched_example :
    Watched (receive busy everywhere idle timed_out 70 ping (codes "u") (knowing suspect))
receive-Watched_example =
    receive-Watched everywhere idle idle-Keeps timed_out busy 70 ping (codes "u") (knowing suspect)
      busy-Discreet (knowing-Watched suspect)

apply_alive-race_example :
    (n' : NodeInfo) × (Node.get peer
        (apply_update_among
          (mark_suspect 71 peer)
          70
          (status_update peer alive 4)
          (knowing suspect)).registry
      ≡ some n')
    × (n'.status ≡ suspect)
    × (lookup peer
          (apply_update_among
            (mark_suspect 71 peer)
            70
            (status_update peer alive 4)
            (knowing suspect)).suspicion_timers
        ≡ none)
apply_alive-race_example =
    apply_alive-race 70 71 (status_update peer alive 4) (knowing suspect) (node peer suspect)
      foreign (peer_known suspect) (omega arith) refl refl

abbrev lost_round : Round
lost_round = record {
  resolves = everywhere;
  intn = λ n. 0;
  shuffle = λ l. l;
  during_direct = idle;
  direct = timed_out;
  during_indirect = idle;
  indirect = timed_out;
  now = 70;
}

draws_zero : (n : ℕ) → 0 < n → 0 < n
draws_zero n h = h

ping_random_member-Watched_example :
    (m' : Membership) × (ping_random_member lost_round (knowing alive) ≡ some m') × Watched m'
ping_random_member-Watched_example =
    ping_random_member-Watched lost_round (knowing alive) draws_zero idle-Keeps idle-Keeps
      (knowing-Watched alive)

queue-IsValid : Queue.IsValid (knowing suspect).update_queue
queue-IsValid = (refl, omega arith, tt)

apply_update-OwnQueued_example :
    OwnQueued (apply_update 70 (status_update me suspect 5) (knowing suspect))
apply_update-OwnQueued_example =
    apply_update-OwnQueued 70 (status_update me suspect 5) (knowing suspect) (omega arith)
      knowing-OwnQueued

drain_times-Has_example :
    ((drain_times 3 (knowing suspect)).1.update_queue ≡ [])
    × ((u : MembershipUpdate)
        → Has u (map update_at (knowing suspect).update_queue)
        → Has u (drain_times 3 (knowing suspect)).0)
drain_times-Has_example = drain_times-Has 3 (knowing suspect) queue-IsValid (omega arith)
