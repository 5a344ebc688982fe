-- ===== src/Database/Pool.antt =====
-- database/src/DbPool.cpp. A call runs under the mutex; where `acquire` waits in vain for a free
-- worker it sees a pool with none.
use oj_backend.Prelude.{
  ℕ, zero, suc, ◌+◌, Bool, true, false, Option, none, some, List, [], ◌∷◌, ltb, leb, length,
  if◌then◌else◌,
}
use oj_backend.Database.Worker.{DbWorker, Driver, check_connection, make_worker}

pub record WorkerSlot : Type 0 where
  pub worker : DbWorker
  pub is_available : Bool

abbrev pub DbPool : Type 0
DbPool = List WorkerSlot

-- The loop of the constructor from worker `i` on; `drivers i` answers for worker `i`.
unfoldable pub make_slots : (ℕ → Driver) → ℕ → ℕ → DbPool
unfolding make_worker
make_slots drivers zero i = []
make_slots drivers (suc n) i =
    record { worker = make_worker (drivers i) i; is_available = true }
    ∷ make_slots drivers n (i + 1)

-- DbPool::DbPool: at least one worker
unfoldable pub make_pool : (ℕ → Driver) → ℕ → DbPool
unfolding make_slots
make_pool drivers size = make_slots drivers (if ltb size 1 then 1 else size) 0

-- DbPool::acquire: the first free worker is marked busy and checked.
unfoldable pub acquire : Driver → DbPool → Option DbWorker × DbPool
acquire d [] = (none, [])
acquire d (s ∷ rest) =
    let (w, rest') = acquire d rest in
    if s.is_available
    then (
      some (check_connection d s.worker).0,
      record { worker = (check_connection d s.worker).0; is_available = false } ∷ rest,
    )
    else (w, s ∷ rest')

-- The slot at a position is set free.
unfoldable pub set_available : DbPool → ℕ → DbPool
set_available [] i = []
set_available (s ∷ rest) zero = record s { is_available = true } ∷ rest
set_available (s ∷ rest) (suc i) = s ∷ set_available rest i

-- DbPool::returnWorker
unfoldable pub return_worker : DbPool → ℕ → DbPool
unfolding set_available
return_worker pool id = if leb (length pool) id then pool else set_available pool id

-- Whether the slot at a position is there and free.
abbrev pub is_free : DbPool → ℕ → Bool
is_free [] i = false
is_free (s ∷ rest) zero = s.is_available
is_free (s ∷ rest) (suc i) = is_free rest i
