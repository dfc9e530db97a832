-- ===== src/Tests/Requests.antt =====
-- A server of a node through a sequence of requests.
use distributed_cache_system.Prelude.{ℕ, ◌≡◌, some, List, [], ◌∷◌, arith}
use distributed_cache_system.Server.{CacheServer}
use distributed_cache_system.Server.Requests.{
  Request, getting, setting, deleting, expiring, copying, handle_all, handle_all-IsRunning,
}
use distributed_cache_system.Server.Serving.{IsRunning}
use distributed_cache_system.Tests.Replication.{east, apple, ring, copy}
use distributed_cache_system.Tests.Servers.{
  server, server-IsServing, ticks, lost, put_apple, keep_apple,
}

abbrev requests : List Request
requests =
    setting lost ticks put_apple
    ∷ getting lost ticks (record { key = apple })
    ∷ expiring lost ticks keep_apple
    ∷ deleting lost (record { key = apple })
    ∷ copying ticks copy
    ∷ []

east-IsRunning : IsRunning 6 (server east)
east-IsRunning = record { serving = server-IsServing 6 east (omega arith); copying = omega arith }

handle_all-IsRunning_example :
    (cs : CacheServer ℕ) × (handle_all requests (server east) ≡ some cs)
    × IsRunning 1 cs
    × (cs.ring ≡ ring)
handle_all-IsRunning_example = handle_all-IsRunning requests 1 (server east) east-IsRunning
