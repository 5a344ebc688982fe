-- ===== src/Judge/Monitor.antt =====
-- Actuator::monitorChild of judge/src/actuators/Actuator.cpp. What the system answers in one round
-- of the polling loop is a `Round`; the loop runs over the list of rounds that the run will see.
use oj_backend.Prelude.{
  ℕ, ◌-◌, ◌/◌, pos, negsuc, to_int32, Bool, true, false, not, ◌&&◌, ◌||◌, Option, none, some, List,
  [], ◌∷◌, ◌++◌, leb, ltb, if◌then◌else◌,
}
use oj_backend.Judge.Status.{TestResult}

abbrev pub Bytes : Type 0
Bytes = List ℕ

-- judge/include/utilities/ExecutionResult.hpp
pub record ExecutionResult : Type 0 where
  pub stdout : Bytes
  pub stderr : Bytes
  pub test_result : TestResult

-- read(2) on a non-blocking pipe: n > 0, n == 0, EAGAIN, another errno
pub data ReadResult : Type 0 where
  chunk : Bytes → ReadResult
  eof again failed : ReadResult

-- poll(2): EINTR, another error, or what reading each ready pipe gives (`none`: no POLLIN)
pub data PollResult : Type 0 where
  interrupted poll_failed : PollResult
  polled : Option ReadResult → Option ReadResult → PollResult

-- what WIFEXITED, WEXITSTATUS, WIFSIGNALED and WTERMSIG tell of a status
pub data WaitStatus : Type 0 where
  exited_with : ℕ → WaitStatus
  killed_by : ℕ → WaitStatus

-- waitpid(2) with WNOHANG: the child, 0, ECHILD, another errno
pub data WaitResult : Type 0 where
  reaped : WaitStatus → WaitResult
  still_running no_child wait_failed : WaitResult

-- one round; the clock is in nanoseconds
pub record Round : Type 0 where
  pub now : ℕ
  pub poll : PollResult
  pub wait : WaitResult

-- the locals of the function; a descriptor set to -1 is one that is no longer open
pub record Monitor : Type 0 where
  pub stdout_data : Bytes
  pub stderr_data : Bytes
  pub stdout_open : Bool
  pub stderr_open : Bool
  pub process_exited : Bool
  pub status : WaitStatus
  pub timeout : Bool

abbrev pub initial : Monitor
initial = record {
  stdout_data = [];
  stderr_data = [];
  stdout_open = true;
  stderr_open = true;
  process_exited = false;
  status = exited_with 0;
  timeout = false;
}

-- the milliseconds that poll waits at most
unfoldable pub poll_timeout : ℕ → ℕ → ℕ
poll_timeout deadline now = elim (to_int32 ((deadline - now) / 1000000)) [
  | pos ms ↦ if ltb ms 10 then 10 else if ltb 100 ms then 100 else ms
  | negsuc _ ↦ 10
]

unfoldable pub read_stdout : Monitor → Option ReadResult → Monitor
read_stdout m none = m
read_stdout m (some (chunk bytes)) = record m { stdout_data = m.stdout_data ++ bytes }
read_stdout m (some eof) = record m { stdout_open = false }
read_stdout m (some again) = m
read_stdout m (some failed) = record m { stdout_open = false }

unfoldable pub read_stderr : Monitor → Option ReadResult → Monitor
read_stderr m none = m
read_stderr m (some (chunk bytes)) = record m { stderr_data = m.stderr_data ++ bytes }
read_stderr m (some eof) = record m { stderr_open = false }
read_stderr m (some again) = m
read_stderr m (some failed) = record m { stderr_open = false }

unfoldable pub check_process : Monitor → WaitResult → Monitor
check_process m (reaped s) = record m { process_exited = true; status = s }
check_process m still_running = m
check_process m no_child = record m { process_exited = true }
check_process m wait_failed = m

-- The rest of a round once poll has succeeded. poll reports nothing for a descriptor of -1.
unfoldable pub serve : Monitor → Option ReadResult → Option ReadResult → WaitResult → Monitor
unfolding read_stdout read_stderr check_process
serve m out err wait =
    let m1 = read_stdout m (if m.stdout_open then out else none) in
    let m2 = read_stderr m1 (if m.stderr_open then err else none) in check_process m2 wait

-- Whether the round leaves the loop, by `break` or because the process has exited.
unfoldable pub leaves : Monitor → Bool
leaves m = m.process_exited || not m.stdout_open && not m.stderr_open

-- How a round ends: by `break` or the test of the loop, or with another round.
pub data Control : Type 0 where
  leave : Monitor → Control
  again_with : Monitor → Control

-- The round from poll on.
unfoldable pub after_poll : Monitor → PollResult → WaitResult → Control
unfolding serve leaves
after_poll m interrupted wait = again_with m
after_poll m poll_failed wait = leave m
after_poll m (polled out errors) wait =
    let m' = serve m out errors wait in if leaves m' then leave m' else again_with m'

-- One round.
unfoldable pub round : ℕ → Monitor → Round → Control
unfolding after_poll
round deadline m r =
    if leb deadline r.now then leave (record m { timeout = true }) else after_poll m r.poll r.wait

-- The loop. `none`: the rounds are over and it still runs.
unfoldable pub watch : ℕ → Monitor → List Round → Option Monitor
watch deadline m [] = none
watch deadline m (r ∷ rest) = elim (round deadline m r) [
  | leave m' ↦ some m'
  | again_with m' ↦ watch deadline m' rest
]

-- The blocking waitpid after the loop: a status, an error, or it never returns, as when a child that
-- has closed both pipes runs on.
pub data LastWait : Type 0 where
  reaps : WaitStatus → LastWait
  wait_fails hangs : LastWait

-- `if (!process_exited)`; an error leaves the status alone. `none`: the wait never returns.
unfoldable pub reap : Monitor → LastWait → Option Monitor
reap m last =
    if m.process_exited
    then some m
    else elim last [ reaps s ↦ some (record m { status = s }) | wait_fails ↦ some m | hangs ↦ none ]

-- The loops that read what is left in a pipe; `none`: it still runs after these reads.
unfoldable pub drain : Bytes → List ReadResult → Option Bytes
drain got [] = none
drain got (chunk bytes ∷ rest) = drain (got ++ bytes) rest
drain got (eof ∷ rest) = some got
drain got (again ∷ rest) = drain got rest
drain got (failed ∷ rest) = some got
