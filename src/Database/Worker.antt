-- ===== src/Database/Worker.antt =====
-- database/src/DbWorker.cpp: one connection and its repair. Of a connection only its presence
-- counts; what the driver answers is an argument.
use oj_backend.Prelude.{ℕ, zero, suc, ◌+◌, ◌≤◌, ◌≡◌, ◌↔◌, Bool, true, false, if◌then◌else◌, arith}

-- m_Connection->isValid(), or an SQLException
pub data Validity : Type 0 where
  valid invalid check_threw : Validity

pub record DbWorker : Type 0 where
  pub id : ℕ
  pub has_connection : Bool

-- The driver during one call: what isValid says, and whether the i-th connect succeeds.
pub record Driver : Type 0 where
  pub validity : Validity
  pub connects : ℕ → Bool

abbrev pub max_reconnect : ℕ
max_reconnect = 3

-- DbWorker::connect: a failure resets the connection.
unfoldable pub connect : Driver → ℕ → DbWorker → DbWorker
connect d i w = record w { has_connection = d.connects i }

-- while (retry < MAX_RECONNECT && !connect()): the worker, and how often connect was called
unfoldable pub reconnect : Driver → ℕ → ℕ → DbWorker → DbWorker × ℕ
unfolding connect
reconnect d zero i w = (w, i)
reconnect d (suc left) i w =
    let w' = connect d i w in
    let rest = reconnect d left (i + 1) w' in if w'.has_connection then (w', i + 1) else rest

unfoldable pub needs_reconnect : Driver → DbWorker → Bool
needs_reconnect d w =
    if w.has_connection
    then elim d.validity [ valid ↦ false | invalid ↦ true | check_threw ↦ true ]
    else true

-- DbWorker::checkConnection, with the number of calls of connect
unfoldable pub check_connection : Driver → DbWorker → DbWorker × ℕ
unfolding needs_reconnect
check_connection d w = if needs_reconnect d w then reconnect d max_reconnect 0 w else (w, 0)

-- DbWorker::DbWorker: a worker without a connection is checked, which connects it.
unfoldable pub make_worker : Driver → ℕ → DbWorker
unfolding check_connection
make_worker d i = (check_connection d (record { id = i; has_connection = false })).0

-- Checking a connection keeps the worker's number, connects at most three times, and leaves no
-- usable connection exactly when one was needed and the first three attempts fail.
pub check_connection_lem :
    (d : Driver) (w : DbWorker)
    → ((check_connection d w).0.id ≡ w.id)
      × ((check_connection d w).1 ≤ max_reconnect)
      × (((check_connection d w).0.has_connection ≡ false) ↔ (
          (needs_reconnect d w ≡ true)
          × (d.connects 0 ≡ false)
          × (d.connects 1 ≡ false)
          × (d.connects 2 ≡ false)))
unfolding check_connection reconnect
check_connection_lem d w = (ground arith, ground arith, (λ h. ground arith, λ h. ground arith))
