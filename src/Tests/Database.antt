-- ===== src/Tests/Database.antt =====
-- The theorems on the pool of database workers (database, app/src/DbManager.cpp) at concrete runs.
use oj_backend.Prelude.{◌≡◌, ◌≤◌, ◌<◌, ◌⊎◌, refl, true, false, List, [], ◌∷◌, ◌==◌}
use oj_backend.Database.Worker.{
  DbWorker, Driver, invalid, check_connection, needs_reconnect, reconnect, connect,
}
use oj_backend.Database.Pool.{DbPool, make_pool, make_slots, acquire, is_free}
use oj_backend.Database.Leases.{System, Step, takes, here, next, initial, held_once, change}
use oj_backend.App.DbManager.{
  Attempt, PoolCall, sql_exception, parameter_exception, finished, execute,
}
use oj_backend.App.DbManager.Threads.{
  Threads, Move, starts, acquires, more, still, holders, idle_threads,
}
use oj_backend.App.DbManager.Threads.Exclusive.{execute_exclusive}

-- A driver that connects at the second attempt, and one that never does.
abbrev second_time : Driver
second_time = record { validity = invalid; connects = λ i. i == 1 }

abbrev offline : Driver
offline = record { validity = invalid; connects = λ i. false }

abbrev worker : DbWorker
worker = record { id = 4; has_connection = true }

abbrev pool : DbPool
pool = make_pool (λ i. second_time) 2

-- One thread takes worker 0.
abbrev one_taken : System
one_taken = record { pool = (acquire second_time pool).1; held = change (λ i. 0) 0 1 }

abbrev first_step : Step (initial (λ i. second_time) 2) one_taken
unfolding make_pool make_slots acquire check_connection needs_reconnect reconnect connect
first_step = takes second_time (record { id = 0; has_connection = true }) refl refl

held_once_example :
    (one_taken.held 0 ≤ 1) × ((one_taken.held 0 ≡ 0) ⊎ (is_free one_taken.pool 0 ≡ false))
held_once_example = held_once (λ i. second_time) 2 {s = one_taken} (next here first_step) 0

-- Of two threads, the first is in `execute`: it has taken worker 0.
abbrev one_inside : Threads
one_inside = record {
  pool = (acquire second_time pool).1;
  left = (PoolCall.gives 0 ∷ []) ∷ [] ∷ [];
}

abbrev about_to_take : Threads
about_to_take = record { pool = pool; left = (PoolCall.takes 0 ∷ PoolCall.gives 0 ∷ []) ∷ [] ∷ [] }

abbrev thread_starts : Move (idle_threads (λ i. second_time) 2 2) about_to_take
unfolding execute
thread_starts =
    starts [] ([] ∷ []) (record { worker = 0; outcome = finished }) []
      (PoolCall.takes 0 ∷ PoolCall.gives 0 ∷ []) refl refl refl refl

abbrev thread_acquires : Move about_to_take one_inside
unfolding make_pool make_slots acquire check_connection needs_reconnect reconnect connect
thread_acquires =
    acquires [] ([] ∷ []) second_time (record { id = 0; has_connection = true })
      (PoolCall.gives 0 ∷ []) refl refl refl

execute_exclusive_example :
    (holders 0 one_inside.left ≤ 1)
    × ((holders 0 one_inside.left ≡ 1) → is_free one_inside.pool 0 ≡ false)
    × ((holders 0 one_inside.left ≡ 0) → 0 < 2 → is_free one_inside.pool 0 ≡ true)
execute_exclusive_example =
    execute_exclusive (λ i. second_time) 2 2 {s = one_inside}
      (more (more still thread_starts) thread_acquires) 0

-- A deadlock, and then a parameter exception.
abbrev attempts : List Attempt
attempts =
    record { worker = 0; outcome = sql_exception 1213 }
    ∷ record { worker = 1; outcome = parameter_exception }
    ∷ []

abbrev pool_calls : List PoolCall
pool_calls =
    PoolCall.takes 0
    ∷ PoolCall.gives 0
    ∷ PoolCall.takes 1
    ∷ PoolCall.gives 1
    ∷ PoolCall.gives 1
    ∷ PoolCall.gives 0
    ∷ []
