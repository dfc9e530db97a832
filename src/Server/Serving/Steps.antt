-- ===== src/Server/Serving/Steps.antt =====
-- internal/server/grpc_server.go: Get, Set and Delete keep a server running.
use distributed_cache_system.Prelude.{ℕ, suc, ◌≡◌, refl, some, Str, codes, true, pos}
use distributed_cache_system.Cluster.Replication.{
  ◌>>=◌, is_primary, is_replica, replicate_write, replicate_delete,
}
use distributed_cache_system.Cluster.Replication.Primary.{is_primary-owners}
use distributed_cache_system.Proto.{
  GetRequest, GetResponse, SetRequest, SetResponse, DeleteRequest, DeleteResponse, op_set,
  op_delete,
}
use distributed_cache_system.Server.{
  CacheServer, Reply, answered, ttl_of, get, set, delete, get_here, set_here, delete_here,
}
use distributed_cache_system.Server.Reads.{get_here_lem}
use distributed_cache_system.Server.Ready.{Watched-some, Watched-suc}
use distributed_cache_system.Server.Routing.{proxy_conn-primary, proxy_conn-replica}
use distributed_cache_system.Server.Serving.{
  IsRunning, acts-IsRunning, IsRunning-less_room, is_replica-some, started, handled_lem,
}
use distributed_cache_system.Server.Writes.{write_here-Holds}
use distributed_cache_system.Store.Methods.{existed, delete-Leaves}
use distributed_cache_system.Store.Valid.{view}

module _ {F : Type 0} (n : ℕ) (cs : CacheServer F) (run : IsRunning (suc n) cs) where
  pub get-IsRunning :
      (invoke : Str → GetRequest → Reply GetResponse) (clock : ℕ → ℕ) (req : GetRequest)
      → (cs' : CacheServer F) × (reply : Reply GetResponse) × (get invoke clock req cs
          ≡ some (cs', reply))
        × IsRunning n cs'
        × (cs'.ring ≡ cs.ring)
  unfolding get
  get-IsRunning invoke clock req =
      let (s, m, hot, v, w, done) = get_here_lem n cs run.serving clock req in
      handled_lem n cs run is_replica req.key (λ c. invoke c req) (get_here clock req)
        (λ loads. proxy_conn-replica loads req.key cs) (is_replica-some n cs run req.key) s
        cs.replication_mgr m _ (acts-IsRunning n cs run s cs.replication_mgr m v run.copying w) done

  pub set-IsRunning :
      (invoke : Str → SetRequest → Reply SetResponse) (clock : ℕ → ℕ) (req : SetRequest)
      → (cs' : CacheServer F) × (reply : Reply SetResponse) × (set invoke clock req cs
          ≡ some (cs', reply))
        × IsRunning n cs'
        × (cs'.ring ≡ cs.ring)
  unfolding set set_here replicate_write
  set-IsRunning invoke clock req =
      let (s, m, v, _, w, stored) =
        write_here-Holds (suc n) cs run.serving clock req.key req.value (ttl_of req.ttl_ms) in
      let (o, c, sent) = started n cs run req.key req.value req.ttl_ms op_set in
      handled_lem n cs run is_primary req.key (λ c. invoke c req) (set_here clock req)
        (λ loads. proxy_conn-primary loads req.key cs)
        (λ rm. (_, is_primary-owners cs.ring run.serving.ringed req.key rm)) s o m
        (answered (record { success = true }))
        (acts-IsRunning n cs run s o m v c (Watched-some n m (Watched-suc n m w)))
        (λ loads. rw (stored loads, ◌>>=◌, sent loads s m) refl)

  pub delete-IsRunning :
      (invoke : Str → DeleteRequest → Reply DeleteResponse) (req : DeleteRequest)
      → (cs' : CacheServer F) × (reply : Reply DeleteResponse) × (delete invoke req cs
          ≡ some (cs', reply))
        × IsRunning n cs'
        × (cs'.ring ≡ cs.ring)
  unfolding delete delete_here replicate_delete
  delete-IsRunning invoke req =
      let (s, gone, l) = delete-Leaves cs.store req.key run.serving.stored in
      let (o, c, sent) = started n cs run req.key (codes "") (pos 0) op_delete in
      handled_lem n cs run is_primary req.key (λ c. invoke c req) (delete_here req)
        (λ loads. proxy_conn-primary loads req.key cs)
        (λ rm. (_, is_primary-owners cs.ring run.serving.ringed req.key rm)) s o
        cs.hot_key_mitigator (answered (record { existed = existed (view cs.store req.key) }))
        (acts-IsRunning n cs run s o cs.hot_key_mitigator l.valid c (IsRunning-less_room n cs run))
        (λ loads. rw (gone, ◌>>=◌, sent loads s cs.hot_key_mitigator) refl)
