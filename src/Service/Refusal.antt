-- ===== src/Service/Refusal.antt =====
-- internal/server/service.go: calls of a node with injected faults.
use distributed_cache_system.Prelude.{ℕ, ◌≡◌, refl, Bool, true, some, Str, List, []}
use distributed_cache_system.Chaos.{FaultInjector, intercept, recover}
use distributed_cache_system.Proto.{
  GetRequest, GetResponse, SetRequest, SetResponse, DeleteRequest, DeleteResponse, ExpireRequest,
  ExpireResponse, KeysRequest, KeyValuePair, ReplicateRequest,
}
use distributed_cache_system.Server.{CacheServer, Reply, answered, failed, get, set, delete, expire}
use distributed_cache_system.Server.Peers.{keys, ping, replicate}
use distributed_cache_system.Service.{
  Call, start_interceptor, logging_interceptor, fault_interceptor, handle_unary, handle_get,
  handle_set, handle_delete, handle_expire, handle_keys, handle_ping, handle_replicate,
  stream_interceptor,
}

refused :
    {S Req A : Type 0} (in_time : Bool) (fi : FaultInjector) (method : Req → Call S A)
    (dec : Reply Req) (s : S)
    → fi.failed ≡ true
    → handle_unary method dec (start_interceptor in_time (some fi)) s ≡ some (s, failed)
unfolding handle_unary start_interceptor logging_interceptor fault_interceptor intercept
refused in_time fi method failed s broken = refl
refused in_time fi method (answered req) s broken = rw broken refl

stream_refused :
    (in_time : Bool) (fi : FaultInjector) (call : List KeyValuePair × Reply Unit)
    → fi.failed ≡ true
    → stream_interceptor in_time (some fi) call ≡ ([], failed)
unfolding stream_interceptor intercept
stream_refused in_time fi call broken = rw broken refl

through :
    {S Req A : Type 0} (in_time : Bool) (fi : FaultInjector) (method : Req → Call S A) (req : Req)
    (s : S)
    → handle_unary method (answered req) (start_interceptor in_time (some (recover fi))) s
      ≡ method req s
unfolding handle_unary start_interceptor logging_interceptor fault_interceptor intercept recover
through in_time fi method req s = refl

-- Every unary call of a node that is failed by its fault injector ends with an error and leaves the
-- server as it was, whether or not its request can be decoded, and a streaming call sends nothing
-- and ends with an error; once the injector has recovered, a decoded Get, Set or Replicate is
-- handled as by a server without an injector.
pub handle-refused :
    {F : Type 0} (in_time : Bool) (fi : FaultInjector) (clock : ℕ → ℕ) (cs : CacheServer F)
    (get_from : Str → GetRequest → Reply GetResponse)
    (set_at : Str → SetRequest → Reply SetResponse)
    (delete_at : Str → DeleteRequest → Reply DeleteResponse)
    (expire_at : Str → ExpireRequest → Reply ExpireResponse)
    → (fi.failed ≡ true
        → ((dec : Reply GetRequest)
            → handle_get clock get_from dec (start_interceptor in_time (some fi)) cs
              ≡ some (cs, failed))
          × ((dec : Reply SetRequest)
              → handle_set clock set_at dec (start_interceptor in_time (some fi)) cs
                ≡ some (cs, failed))
          × ((dec : Reply DeleteRequest)
              → handle_delete delete_at dec (start_interceptor in_time (some fi)) cs
                ≡ some (cs, failed))
          × ((dec : Reply ExpireRequest)
              → handle_expire clock expire_at dec (start_interceptor in_time (some fi)) cs
                ≡ some (cs, failed))
          × ((dec : Reply KeysRequest)
              → handle_keys clock dec (start_interceptor in_time (some fi)) cs ≡ some (cs, failed))
          × ((dec : Reply Unit)
              → handle_ping clock dec (start_interceptor in_time (some fi)) cs ≡ some (cs, failed))
          × ((dec : Reply ReplicateRequest)
              → handle_replicate clock dec (start_interceptor in_time (some fi)) cs
                ≡ some (cs, failed))
          × ((call : List KeyValuePair × Reply Unit)
              → stream_interceptor in_time (some fi) call ≡ ([], failed)))
      × ((req : GetRequest)
          → handle_get clock get_from
              (answered req)
              (start_interceptor in_time (some (recover fi)))
              cs
            ≡ get get_from clock req cs)
      × ((req : SetRequest)
          → handle_set clock set_at
              (answered req)
              (start_interceptor in_time (some (recover fi)))
              cs
            ≡ set set_at clock req cs)
      × ((req : ReplicateRequest)
          → handle_replicate clock (answered req) (start_interceptor in_time (some (recover fi))) cs
            ≡ replicate clock req cs)
unfolding handle_get handle_set handle_delete handle_expire handle_keys handle_ping handle_replicate
handle-refused in_time fi clock cs get_from set_at delete_at expire_at = (
  λ broken. (
    λ dec. refused in_time fi (get get_from clock) dec cs broken,
    λ dec. refused in_time fi (set set_at clock) dec cs broken,
    λ dec. refused in_time fi (delete delete_at) dec cs broken,
    λ dec. refused in_time fi (expire expire_at clock) dec cs broken,
    λ dec. refused in_time fi (λ req cs. some (cs, keys (clock 0) req cs)) dec cs broken,
    λ dec. refused in_time fi (λ req cs. some (cs, ping (clock 0) (clock 1) cs)) dec cs broken,
    λ dec. refused in_time fi (replicate clock) dec cs broken,
    λ call. stream_refused in_time fi call broken,
  ),
  λ req. through in_time fi (get get_from clock) req cs,
  λ req. through in_time fi (set set_at clock) req cs,
  λ req. through in_time fi (replicate clock) req cs,
)
