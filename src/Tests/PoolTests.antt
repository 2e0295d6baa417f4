-- ===== src/Tests/PoolTests.antt =====
-- A pool of two connections and three threads.
use k2_market_data_platform.Base.{ℕ, ◌+◌, ◌≤◌, ◌≡◌, none, some, List, [], ◌∷◌, ◌++◌, length}
use k2_market_data_platform.ConnectionPool.{
  Event, waits, takes, gives, signals, wait, run, begin_world,
}
use k2_market_data_platform.ConnectionPool.Members.{count}
use k2_market_data_platform.ConnectionPool.Capacity.{run-bounded}
use k2_market_data_platform.ConnectionPool.Leak.{failures, run-starves}

abbrev busy : List Event
busy =
    waits
    ∷ waits
    ∷ takes (some 70)
    ∷ waits
    ∷ takes (some 71)
    ∷ gives 70
    ∷ signals
    ∷ waits
    ∷ takes (some 72)
    ∷ []

run-bounded_example :
    (length (run (begin_world 2) busy).pool.all_connections ≤ 2)
    × (length (run (begin_world 2) busy).pool.active_connections ≤ 2)
    × ((run (begin_world 2) busy).pool.peak_utilization ≤ 2)
    × ((c : ℕ)
        → count c (run (begin_world 2) busy).pool.connections
            + count c (run (begin_world 2) busy).pool.active_connections
          ≤ 1)
run-bounded_example = run-bounded 2 busy

run-starves_example :
    ((run (begin_world 2) (failures 2 ++ busy)).pool.active_connections ≡ [])
    × ((run (begin_world 2) (failures 2 ++ busy)).pool.connections ≡ [])
    × (wait (run (begin_world 2) (failures 2 ++ busy)).pool ≡ none)
run-starves_example = run-starves 2 busy
