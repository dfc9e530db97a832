-- ===== src/Service.antt =====
-- internal/server/service.go, and the interceptors of internal/server/grpc_server.go and
-- internal/chaos/faultinjector.go: how a call reaches a handler of the cache service.
-- A handler works on the state of a server; decoding a request ends with the request or an error.
use distributed_cache_system.Prelude.{ℕ, Bool, Option, none, some, List, [], Str}
use distributed_cache_system.Chaos.{FaultInjector, unavailable, cancelled, handled, intercept}
use distributed_cache_system.Proto.{
  GetRequest, GetResponse, SetRequest, SetResponse, DeleteRequest, DeleteResponse, ExpireRequest,
  ExpireResponse, KeysRequest, KeysResponse, PingResponse, ReplicateRequest, ReplicateResponse,
  TransferKeysRequest, KeyValuePair,
}
use distributed_cache_system.Server.{CacheServer, Reply, answered, failed, get, set, delete, expire}
use distributed_cache_system.Server.Peers.{keys, ping, replicate, transfer_keys}
pub mod Refusal

abbrev pub Call : Type 0 → Type 0 → Type 0
Call S A = S → Option (S × Reply A)

abbrev pub Interceptor : Type 0 → Type 0 → Type 0
Interceptor S A = Call S A → Call S A

-- The time and the outcome of the call are logged.
unfoldable pub logging_interceptor : {S A : Type 0} → Interceptor S A
logging_interceptor call s = call s

-- `in_time` says whether the injected latency has passed before the caller gives up.
unfoldable pub fault_interceptor : {S A : Type 0} → Bool → FaultInjector → Interceptor S A
fault_interceptor in_time fi call s = elim (intercept in_time fi (call s)) [
  | unavailable ↦ some (s, failed)
  | cancelled ↦ some (s, failed)
  | handled result ↦ result
]

-- The interceptors that `Start` gives to the server.
unfoldable pub start_interceptor :
    {S A : Type 0} → Bool → Option FaultInjector → Option (Interceptor S A)
start_interceptor in_time none = some logging_interceptor
start_interceptor in_time (some fi) =
    some (λ call. logging_interceptor (fault_interceptor in_time fi call))

-- What the handlers of unary methods share: decode, then call the method, through the interceptor
-- if there is one.
unfoldable pub handle_unary :
    {S Req A : Type 0} → (Req → Call S A) → Reply Req → Option (Interceptor S A) → Call S A
handle_unary method dec interceptor s = elim dec [
  | failed ↦ some (s, failed)
  | answered req ↦ elim interceptor [ none ↦ method req s | some through ↦ through (method req) s ]
]

module _ {F : Type 0} (clock : ℕ → ℕ) where
  unfoldable pub handle_get :
      (Str → GetRequest → Reply GetResponse)
      → Reply GetRequest
      → Option (Interceptor (CacheServer F) GetResponse)
      → Call (CacheServer F) GetResponse
  handle_get invoke = handle_unary (get invoke clock)

  unfoldable pub handle_set :
      (Str → SetRequest → Reply SetResponse)
      → Reply SetRequest
      → Option (Interceptor (CacheServer F) SetResponse)
      → Call (CacheServer F) SetResponse
  handle_set invoke = handle_unary (set invoke clock)

  unfoldable pub handle_expire :
      (Str → ExpireRequest → Reply ExpireResponse)
      → Reply ExpireRequest
      → Option (Interceptor (CacheServer F) ExpireResponse)
      → Call (CacheServer F) ExpireResponse
  handle_expire invoke = handle_unary (expire invoke clock)

  unfoldable pub handle_keys :
      Reply KeysRequest
      → Option (Interceptor (CacheServer F) KeysResponse)
      → Call (CacheServer F) KeysResponse
  handle_keys = handle_unary (λ req cs. some (cs, keys (clock 0) req cs))

  -- A ping's request has no fields.
  unfoldable pub handle_ping :
      Reply Unit
      → Option (Interceptor (CacheServer F) PingResponse)
      → Call (CacheServer F) PingResponse
  handle_ping = handle_unary (λ req cs. some (cs, ping (clock 0) (clock 1) cs))

  unfoldable pub handle_replicate :
      Reply ReplicateRequest
      → Option (Interceptor (CacheServer F) ReplicateResponse)
      → Call (CacheServer F) ReplicateResponse
  handle_replicate = handle_unary (replicate clock)

unfoldable pub handle_delete :
    {F : Type 0}
    → (Str → DeleteRequest → Reply DeleteResponse)
    → Reply DeleteRequest
    → Option (Interceptor (CacheServer F) DeleteResponse)
    → Call (CacheServer F) DeleteResponse
handle_delete invoke = handle_unary (delete invoke)

-- `handleTransferKeys`: receive the request, then stream.
unfoldable pub handle_transfer_keys :
    {F : Type 0}
    → (List KeyValuePair → KeyValuePair → Bool)
    → ℕ
    → Reply TransferKeysRequest
    → CacheServer F
    → List KeyValuePair × Reply Unit
handle_transfer_keys send now received cs = elim received [
  | failed ↦ ([], failed)
  | answered req ↦ transfer_keys send now req cs
]

-- The interceptor of streaming calls, on a call that streams pairs.
unfoldable pub stream_interceptor :
    Bool → Option FaultInjector → List KeyValuePair × Reply Unit → List KeyValuePair × Reply Unit
stream_interceptor in_time none call = call
stream_interceptor in_time (some fi) call = elim (intercept in_time fi call) [
  | unavailable ↦ ([], failed)
  | cancelled ↦ ([], failed)
  | handled result ↦ result
]
