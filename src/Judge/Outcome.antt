-- ===== src/Judge/Outcome.antt =====
-- The end of Actuator::monitorChild (judge/src/actuators/Actuator.cpp): exit code and signal, the
-- figures that the control group kept, and the verdict on how the process ended.
use oj_backend.Prelude.{
  ℕ, ◌/◌, ℤ, pos, negsuc, to_int32, to_uint32, Bool, false, Option, none, some, List, [], ◌∷◌, leb,
  if◌then◌else◌,
}
use oj_backend.Exceptions.Result.{Result, Error, ok, err}
use oj_backend.Judge.Status.{
  TestStatus, TestResult, runtime_error, memory_limit_exceeded, time_limit_exceeded,
}
use oj_backend.Judge.Monitor.{
  ExecutionResult, ReadResult, WaitStatus, exited_with, killed_by, Monitor, Round, initial, watch,
  LastWait, reap, drain,
}

-- A line of cpu.stat: `usage_usec` with its number, without one, or another line.
pub data StatLine : Type 0 where
  usage : ℕ → StatLine
  usage_garbled other_line : StatLine

-- What reading the two files gives: the number in memory.peak and the lines of cpu.stat, if they
-- are there; `unreadable` if the file system throws.
pub data CgroupStats : Type 0 where
  unreadable : ℤ → CgroupStats
  figures : Option ℕ → List StatLine → CgroupStats

unfoldable pub exit_code_of : WaitStatus → ℤ
exit_code_of (exited_with c) = pos c
exit_code_of (killed_by s) = negsuc 0

unfoldable pub signal_of : WaitStatus → ℤ
signal_of (exited_with c) = pos 0
signal_of (killed_by s) = pos s

-- `ExecutionResult result{}`
abbrev pub fresh_result : TestResult
fresh_result = record {
  duration_us = 0;
  exit_code = negsuc 0;
  memory_kb = negsuc 0;
  signal = negsuc 0;
  status = TestStatus.unknown;
}

unfoldable pub memory_of : Option ℕ → ℤ
memory_of none = fresh_result.memory_kb
memory_of (some peak) = to_int32 (peak / 1024)

-- The last `usage_usec` line counts.
unfoldable pub duration_of : ℕ → List StatLine → ℕ
duration_of d [] = d
duration_of d (usage us ∷ rest) = duration_of us rest
duration_of d (usage_garbled ∷ rest) = duration_of d rest
duration_of d (other_line ∷ rest) = duration_of d rest

abbrev pub is_zero : ℤ → Bool
is_zero (pos n) = leb n 0
is_zero (negsuc n) = false

-- The ladder that judges the reason of the exit; `>=` compares as `uint32_t`.
unfoldable pub classify : Bool → ℤ → ℕ → ℤ → ℤ → TestStatus
classify timeout memory_kb memory_limit_kb signal exit_code =
    if timeout
    then time_limit_exceeded
    else if leb memory_limit_kb (to_uint32 memory_kb)
    then memory_limit_exceeded
    else if is_zero signal
    then (if is_zero exit_code then TestStatus.unknown else runtime_error)
    else runtime_error

-- After the loop and the last reads.
unfoldable pub finish : Monitor → CgroupStats → ℕ → Result ExecutionResult
unfolding exit_code_of signal_of memory_of duration_of classify
finish m (unreadable errno) memory_limit_kb =
    err (Error.system errno "Failed to read cgroup statistics")
finish m (figures peak lines) memory_limit_kb =
    let memory_kb = memory_of peak in
    let exit_code = exit_code_of m.status in
    let signal = signal_of m.status in
    ok (record {
      stdout = m.stdout_data;
      stderr = m.stderr_data;
      test_result = record {
        duration_us = duration_of 0 lines;
        exit_code = exit_code;
        memory_kb = memory_kb;
        signal = signal;
        status = classify m.timeout memory_kb memory_limit_kb signal exit_code;
      };
    })

-- What the system will answer to one run of the function.
pub record Run : Type 0 where
  pub rounds : List Round
  pub last_wait : LastWait
  pub stdout_rest : List ReadResult
  pub stderr_rest : List ReadResult
  pub stats : CgroupStats

unfoldable pub drain_both : Monitor → Run → Option Monitor
drain_both m run = elim (drain m.stdout_data run.stdout_rest) [
  | none ↦ none
  | some out ↦ elim (drain m.stderr_data run.stderr_rest) [
    | none ↦ none
    | some errors ↦ some (record m { stdout_data = out; stderr_data = errors })
  ]
]

-- The whole function. `none`: it still runs when the answers of the system end, or hangs in the last
-- wait.
unfoldable pub monitor_child : ℕ → ℕ → Run → Option (Result ExecutionResult)
monitor_child deadline memory_limit_kb run = elim (watch deadline initial run.rounds) [
  | none ↦ none
  | some m ↦ elim (reap m run.last_wait) [
    | none ↦ none
    | some m1 ↦ elim (drain_both m1 run) [
      | none ↦ none
      | some m2 ↦ some (finish m2 run.stats memory_limit_kb)
    ]
  ]
]
