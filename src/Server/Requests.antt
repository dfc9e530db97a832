-- ===== src/Server/Requests.antt =====
-- internal/server/grpc_server.go: a server through any sequence of requests.
use mathlib.Core.Path.{subst}
use distributed_cache_system.Prelude.{
  ℕ, suc, ◌+◌, ◌≡◌, refl, ◌∙◌, Option, some, List, [], ◌∷◌, Str, arith, length,
}
use distributed_cache_system.Cluster.Replication.{◌>>=◌}
use distributed_cache_system.Proto.{
  GetRequest, GetResponse, SetRequest, SetResponse, DeleteRequest, DeleteResponse, ExpireRequest,
  ExpireResponse, ReplicateRequest,
}
use distributed_cache_system.Server.{CacheServer, Reply, get, set, delete, expire}
use distributed_cache_system.Server.Copies.{replicate-Updates}
use distributed_cache_system.Server.Peers.{replicate}
use distributed_cache_system.Server.Serving.{IsRunning, acts-IsRunning, IsRunning-less_room}
use distributed_cache_system.Server.Serving.Steps.{get-IsRunning, set-IsRunning, delete-IsRunning}
use distributed_cache_system.Server.Serving.Renewed.{expire-IsRunning}

-- A request with what the other nodes answer if it is passed on, and the clock while it is handled.
pub data Request : Type 0 where
  getting : (Str → GetRequest → Reply GetResponse) → (ℕ → ℕ) → GetRequest → Request
  setting : (Str → SetRequest → Reply SetResponse) → (ℕ → ℕ) → SetRequest → Request
  deleting : (Str → DeleteRequest → Reply DeleteResponse) → DeleteRequest → Request
  expiring : (Str → ExpireRequest → Reply ExpireResponse) → (ℕ → ℕ) → ExpireRequest → Request
  copying : (ℕ → ℕ) → ReplicateRequest → Request

module _ {F : Type 0} where
  -- The server after a request; `none` is a panic.
  unfoldable pub handle : Request → CacheServer F → Option (CacheServer F)
  handle (getting invoke clock req) cs = do (cs', reply) ← get invoke clock req cs; some cs'
  handle (setting invoke clock req) cs = do (cs', reply) ← set invoke clock req cs; some cs'
  handle (deleting invoke req) cs = do (cs', reply) ← delete invoke req cs; some cs'
  handle (expiring invoke clock req) cs = do (cs', reply) ← expire invoke clock req cs; some cs'
  handle (copying clock req) cs = do (cs', reply) ← replicate clock req cs; some cs'

  unfoldable pub handle_all : List Request → CacheServer F → Option (CacheServer F)
  handle_all [] cs = some cs
  handle_all (req ∷ reqs) cs = do cs' ← handle req cs; handle_all reqs cs'

  module _ (n : ℕ) (cs : CacheServer F) (run : IsRunning (suc n) cs) where
    handle-IsRunning :
        (req : Request)
        → (cs' : CacheServer F) × (handle req cs ≡ some cs')
          × IsRunning n cs'
          × (cs'.ring ≡ cs.ring)
    unfolding handle
    handle-IsRunning (getting invoke clock req) =
        let (cs', reply, done, after, same) = get-IsRunning n cs run invoke clock req in
        (cs', rw done refl, after, same)
    handle-IsRunning (setting invoke clock req) =
        let (cs', reply, done, after, same) = set-IsRunning n cs run invoke clock req in
        (cs', rw done refl, after, same)
    handle-IsRunning (deleting invoke req) =
        let (cs', reply, done, after, same) = delete-IsRunning n cs run invoke req in
        (cs', rw done refl, after, same)
    handle-IsRunning (expiring invoke clock req) =
        let (cs', reply, done, after, same) = expire-IsRunning n cs run invoke clock req in
        (cs', rw done refl, after, same)
    handle-IsRunning (copying clock req) =
        let (s, done, v, _) = replicate-Updates clock req cs run.serving.stored in
        (
          _,
          rw done refl,
          acts-IsRunning n cs run s cs.replication_mgr cs.hot_key_mitigator v run.copying
              (IsRunning-less_room n cs run),
          refl,
        )

  -- A server with a valid store and ring, room in its sketch for an access a request, and at least
  -- one replica for a key, handles any sequence of gets, sets, deletes, renewals and copies,
  -- whatever other nodes answer, without a panic; after it, its store is valid and its ring, with
  -- the loads, is as it was.
  pub handle_all-IsRunning :
      (reqs : List Request) (n : ℕ) (cs : CacheServer F)
      → IsRunning (length reqs + n) cs
      → (cs' : CacheServer F) × (handle_all reqs cs ≡ some cs')
        × IsRunning n cs'
        × (cs'.ring ≡ cs.ring)
  unfolding handle_all
  handle_all-IsRunning [] n cs run =
      let none_left : 0 + n ≡ n = omega arith in
      (cs, refl, subst (λ k. IsRunning k cs) none_left run, refl)
  handle_all-IsRunning (req ∷ reqs) n cs run =
      let one_less : suc (length reqs) + n ≡ suc (length reqs + n) = omega arith in
      let (cs₁, one, run₁, same₁) =
        handle-IsRunning (length reqs + n) cs (subst (λ k. IsRunning k cs) one_less run) req in
      let (cs', rest, after, same') = handle_all-IsRunning reqs n cs₁ run₁ in
      (cs', rw (one, ◌>>=◌) rest, after, same' ∙ same₁)
