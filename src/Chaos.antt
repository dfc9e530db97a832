-- ===== src/Chaos.antt =====
-- internal/chaos/faultinjector.go: the faults injected into a node.
pub mod Endpoints
use distributed_cache_system.Prelude.{
  Bool, true, false, not, ◌&&◌, none, some, List, [], map, Str, if◌then◌else◌, ℤ, pos,
}
use distributed_cache_system.Prelude.Duration.{milliseconds, is_positive}
use distributed_cache_system.Prelude.Assoc
use distributed_cache_system.Prelude.Assoc.{Map, lookup, insert}

pub record FaultInjector : Type 0 where
  pub failed : Bool
  -- A duration, in nanoseconds.
  pub latency : ℤ
  pub partitioned : Map Bool

unfoldable pub new_fault_injector : FaultInjector
new_fault_injector = record { failed = false; latency = pos 0; partitioned = [] }

unfoldable pub set_failed : Bool → FaultInjector → FaultInjector
set_failed failed fi = record fi { failed = failed }

unfoldable pub set_latency : ℤ → FaultInjector → FaultInjector
set_latency d fi = record fi { latency = d }

unfoldable pub partition_node : Str → Bool → FaultInjector → FaultInjector
partition_node peer true fi = record fi { partitioned = insert peer true fi.partitioned }
partition_node peer false fi = record fi { partitioned = Assoc.delete peer fi.partitioned }

unfoldable pub is_partitioned : Str → FaultInjector → Bool
is_partitioned peer fi = elim (lookup peer fi.partitioned) [ none ↦ false | some b ↦ b ]

unfoldable pub recover : FaultInjector → FaultInjector
recover fi = record fi { failed = false; latency = pos 0; partitioned = [] }

pub record FaultStatus : Type 0 where
  pub failed : Bool
  pub latency_ms : ℤ
  pub partitioned : List Str

unfoldable pub status : FaultInjector → FaultStatus
status fi = record {
  failed = fi.failed;
  latency_ms = milliseconds fi.latency;
  partitioned = map (λ (kv : Str × Bool). kv.0) fi.partitioned;
}

-- How a call ends that passes the interceptor.
pub data Intercepted {ℓ} (A : Type ℓ) : Type ℓ where
  unavailable : Intercepted A
  cancelled : Intercepted A
  handled : A → Intercepted A

-- The interceptors of unary and of streaming calls; `in_time` says whether the injected latency has
-- passed before the caller's context is done.
unfoldable pub intercept {ℓ} : {A : Type ℓ} → Bool → FaultInjector → A → Intercepted A
intercept in_time fi handler =
    if fi.failed
    then unavailable
    else if is_positive fi.latency && not in_time
    then cancelled
    else handled handler
