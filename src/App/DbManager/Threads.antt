-- ===== src/App/DbManager/Threads.antt =====
-- Threads that call DbManager::execute (app/src/DbManager.cpp) on one pool of workers, interleaved at
-- their calls of the pool.
pub mod Holders
pub mod Exclusive
use oj_backend.Prelude.{
  ℕ, zero, suc, ◌+◌, ◌-◌, ◌≤◌, ◌<◌, ◌≡◌, ◌⊎◌, refl, sym, ◌∙◌, ap, inl, inr, Bool, true, false,
  Option, none, some, List, [], ◌∷◌, ◌++◌, ltb, ◌==◌, length, replicate, if◌then◌else◌, arith, max,
  Bool-cases, subst, some-injective,
}
use oj_backend.Database.Worker.{DbWorker, Driver}
use oj_backend.Database.Pool.{DbPool, make_pool, acquire, return_worker, is_free}
use oj_backend.Database.Slots.{make_pool_lem, length-acquire, return_worker_lem}
use oj_backend.Database.Leases.{
  System, Step, takes, misses, gives, change, IsOwned, initial, initial-IsOwned, Step-IsOwned,
}
use oj_backend.App.DbManager.{
  Outcome, finished, parameter_exception, other_exception, sql_exception, Attempt, PoolCall,
  is_lock_error, execute, taken, given, surplus, returns_twice, execute-surplus,
}

-- The pool, and for each thread the calls that are left of the `execute` it is in.
pub record Threads : Type 0 where
  pub pool : DbPool
  pub left : List (List PoolCall)

-- How many of the threads hold a worker: those that have still to return it and not to take it.
abbrev pub holders : ℕ → List (List PoolCall) → ℕ
holders w [] = 0
holders w (calls ∷ rest) = (given w calls - taken w calls) + holders w rest

-- An `execute` starts, of which no attempt ends in a parameter exception or a lock error; one call
-- of the pool is made; a thread that waits for a worker waits on.
pub data Move (s t : Threads) : Type 0 where
  starts :
      (before after : List (List PoolCall)) (a : Attempt) (rest : List Attempt)
      (calls : List PoolCall)
      → s.left ≡ before ++ [] ∷ after
      → returns_twice a.outcome ≡ false
      → execute (a ∷ rest) ≡ some calls
      → t ≡ record s { left = before ++ calls ∷ after }
      → Move s t
  acquires :
      (before after : List (List PoolCall)) (d : Driver) (w : DbWorker) (rest : List PoolCall)
      → s.left ≡ before ++ (PoolCall.takes w.id ∷ rest) ∷ after
      → (acquire d s.pool).0 ≡ some w
      → t ≡ record { pool = (acquire d s.pool).1; left = before ++ rest ∷ after }
      → Move s t
  waits :
      (d : Driver)
      → (acquire d s.pool).0 ≡ none
      → t ≡ record s { pool = (acquire d s.pool).1 }
      → Move s t
  returns :
      (before after : List (List PoolCall)) (id : ℕ) (rest : List PoolCall)
      → s.left ≡ before ++ (PoolCall.gives id ∷ rest) ∷ after
      → t ≡ record { pool = return_worker s.pool id; left = before ++ rest ∷ after }
      → Move s t

pub data Moves (s : Threads) : Threads → Type 0 where
  still : Moves s s
  more : {t u : Threads} → Moves s t → Move t u → Moves s u

-- A new pool, and threads that are in no `execute`.
abbrev pub idle_threads : (ℕ → Driver) → ℕ → ℕ → Threads
idle_threads drivers size threads = record {
  pool = make_pool drivers size;
  left = replicate threads [];
}
