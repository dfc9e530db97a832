-- ===== src/Chaos/Endpoints.antt =====
-- internal/chaos/endpoints.go: the HTTP handlers that inject faults.
-- A request is its method and its decoded body; `none` is a body that cannot be decoded.
use distributed_cache_system.Prelude.{
  ℕ, ◌*◌, ◌^◌, ◌<◌, ◌≡◌, refl, ap, ◌∙◌, Bool, true, false, Option, none, some, [], Str, str_eq,
  str_eq_refl, codes, map, if◌then◌else◌, ℤ, pos,
}
use distributed_cache_system.Prelude.Duration.{
  from_milliseconds, milliseconds, milliseconds-from_milliseconds,
}
use distributed_cache_system.Chaos.{
  FaultInjector, FaultStatus, set_failed, set_latency, partition_node, recover, status,
}

pub data HttpReply : Type 0 where
  method_not_allowed bad_request : HttpReply
  failed_updated : Bool → HttpReply
  latency_updated : ℤ → HttpReply
  partition_updated : Str → Bool → HttpReply
  recovered : HttpReply
  reported : FaultStatus → HttpReply

abbrev pub is_post : Str → Bool
is_post method = str_eq method (codes "POST")

unfoldable pub handle_fail_node : Str → Option Bool → FaultInjector → FaultInjector × HttpReply
handle_fail_node method body fi = elim (is_post method) [
  | false ↦ (fi, method_not_allowed)
  | true ↦ elim body [ none ↦ (fi, bad_request) | some b ↦ (set_failed b fi, failed_updated b) ]
]

unfoldable pub handle_slow_node : Str → Option ℤ → FaultInjector → FaultInjector × HttpReply
handle_slow_node method body fi = elim (is_post method) [
  | false ↦ (fi, method_not_allowed)
  | true ↦ elim body [
    | none ↦ (fi, bad_request)
    | some latency_ms ↦ (set_latency (from_milliseconds latency_ms) fi, latency_updated latency_ms)
  ]
]

unfoldable pub handle_partition :
    Str → Option (Str × Bool) → FaultInjector → FaultInjector × HttpReply
handle_partition method body fi = elim (is_post method) [
  | false ↦ (fi, method_not_allowed)
  | true ↦ elim body [
    | none ↦ (fi, bad_request)
    | some (peer_id, partition) ↦
        if str_eq peer_id (codes "")
        then (fi, bad_request)
        else (partition_node peer_id partition fi, partition_updated peer_id partition)
  ]
]

unfoldable pub handle_recover : Str → FaultInjector → FaultInjector × HttpReply
handle_recover method fi =
    if is_post method then (recover fi, recovered) else (fi, method_not_allowed)

unfoldable pub handle_status : Str → FaultInjector → HttpReply
handle_status method fi =
    if str_eq method (codes "GET") then reported (status fi) else method_not_allowed

slow_posted :
    (ms : ℤ) (fi : FaultInjector)
    → handle_slow_node (codes "POST") (some ms) fi
      ≡ (set_latency (from_milliseconds ms) fi, latency_updated ms)
unfolding handle_slow_node
slow_posted ms fi = rw (handle_slow_node, str_eq_refl (codes "POST")) refl

recover_posted : (fi : FaultInjector) → handle_recover (codes "POST") fi ≡ (recover fi, recovered)
unfolding handle_recover
recover_posted fi = rw (str_eq_refl (codes "POST")) refl

status_got : (fi : FaultInjector) → handle_status (codes "GET") fi ≡ reported (status fi)
unfolding handle_status
status_got fi = rw (str_eq_refl (codes "GET")) refl

-- A latency of milliseconds that fits a duration is what the status reports after it was set,
-- together with the failure and the peers cut off before; a recovery then clears them all.
pub handle_slow_node-handle_status :
    (n : ℕ) (fi : FaultInjector)
    → n * 1000000 < 2 ^ 63
    → (handle_status (codes "GET") (handle_slow_node (codes "POST") (some (pos n)) fi).0
        ≡ reported (record {
          failed = fi.failed;
          latency_ms = pos n;
          partitioned = map (λ (kv : Str × Bool). kv.0) fi.partitioned;
        }))
      × (handle_status
            (codes "GET")
            (handle_recover (codes "POST") (handle_slow_node (codes "POST") (some (pos n)) fi).0).0
          ≡ reported (record { failed = false; latency_ms = pos 0; partitioned = [] }))
unfolding recover
handle_slow_node-handle_status n fi small =
    let slow = ap (λ (x : FaultInjector × HttpReply). x.0) (slow_posted (pos n) fi) in
    (
      ap (handle_status (codes "GET")) slow
          ∙ status_got (set_latency (from_milliseconds (pos n)) fi)
          ∙ (unfold status in
              unfold set_latency in
              ap
                (λ l. reported (record {
                  failed = fi.failed;
                  latency_ms = l;
                  partitioned = map (λ (kv : Str × Bool). kv.0) fi.partitioned;
                }))
                (milliseconds-from_milliseconds n small)),
      ap (λ x. handle_status (codes "GET") (handle_recover (codes "POST") x).0) slow
          ∙ ap (λ (x : FaultInjector × HttpReply). handle_status (codes "GET") x.0)
              (recover_posted (set_latency (from_milliseconds (pos n)) fi))
          ∙ status_got (recover fi)
          ∙ (unfold status in unfold milliseconds in refl),
    )
