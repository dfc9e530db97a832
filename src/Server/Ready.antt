-- ===== src/Server/Ready.antt =====
-- internal/server/grpc_server.go: what a running server satisfies.
use mathlib.Core.Path.{subst}
use distributed_cache_system.Prelude.{
  ℕ, suc, Option, none, arith, ◌+◌, ◌<◌, ◌≡◌, some, Str, u32_mod,
}
use distributed_cache_system.Mitigator.{Mitigator}
use distributed_cache_system.Ring.Valid.{IsValid as IsValidRing}
use distributed_cache_system.Server.{CacheServer}
use distributed_cache_system.Server.Loads.{IsCounted}
use distributed_cache_system.Sketch.{CountMinSketch, max_uint64}
use distributed_cache_system.Sketch.Bounds.{Tracks}
use distributed_cache_system.Store.Valid.{IsValid as IsValidStore}

-- A sketch that counts some accesses and has room for `n` more, and a number of copies.
pub record IsWatching (n copies : ℕ) (cms : CountMinSketch) : Type 0 where
  pub sharded : 0 < copies
  pub small : copies < u32_mod
  pub accesses : Str → ℕ
  pub tracks : Tracks accesses cms
  pub roomy : cms.total + n < max_uint64

-- A mitigator, if there is one, that has room for `n` accesses.
abbrev pub Watched : ℕ → Option Mitigator → Type 0
Watched n none = Unit
Watched n (some m) = IsWatching n m.shard_count m.detector.sketch

pub Watched-some :
    (n : ℕ) (o : Option Mitigator)
    → Watched n o
    → (m : Mitigator) → o ≡ some m
    → IsWatching n m.shard_count m.detector.sketch
Watched-some n none w m h = ground arith
Watched-some n (some m') w m h =
    let same : m' ≡ m = ground arith in
    subst (λ x. IsWatching n x.shard_count x.detector.sketch) same w

pub less_room :
    (n copies : ℕ) (cms : CountMinSketch) → IsWatching (suc n) copies cms → IsWatching n copies cms
less_room n copies cms w = record {
  sharded = w.sharded;
  small = w.small;
  accesses = w.accesses;
  tracks = w.tracks;
  roomy = omega (arith, w.roomy);
}

pub Watched-suc : (n : ℕ) (o : Option Mitigator) → Watched (suc n) o → Watched n o
Watched-suc n none w = tt
Watched-suc n (some m) w = less_room n m.shard_count m.detector.sketch w

-- A server that can count `n` more accesses.
pub record IsServing {F : Type 0} (n : ℕ) (cs : CacheServer F) : Type 0 where
  pub stored : IsValidStore cs.store
  pub ringed : IsValidRing cs.ring
  pub counted : IsCounted cs
  pub watched :
      (m : Mitigator) → cs.hot_key_mitigator ≡ some m → IsWatching n m.shard_count m.detector.sketch

abbrev pub IsReady : {F : Type 0} → CacheServer F → Type 0
IsReady cs = IsServing 1 cs

pub IsServing-IsReady :
    {F : Type 0} (n : ℕ) (cs : CacheServer F) → IsServing (suc n) cs → IsReady cs
IsServing-IsReady n cs r = record {
  stored = r.stored;
  ringed = r.ringed;
  counted = r.counted;
  watched = λ m h.
      let w = r.watched m h in
      record {
        sharded = w.sharded;
        small = w.small;
        accesses = w.accesses;
        tracks = w.tracks;
        roomy = omega (arith, w.roomy);
      };
}
