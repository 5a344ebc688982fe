-- ===== src/Tests/Judge.antt =====
-- The theorems on the judge (judge/src) at concrete runs.
use mathlib.Core.Quot
use oj_backend.Prelude.{◌↔◌, ℕ, ◌≡◌, refl, arith, true, pos, negsuc, none, some, List, [], ◌∷◌}
use oj_backend.Core.Types.{LimitsInfo}
use oj_backend.Judge.Status.{
  SubmissionStatus, mask, TestStatus, set_status, accepted, wrong_answer, time_limit_exceeded,
  memory_limit_exceeded,
}
use oj_backend.Judge.Status
use oj_backend.Judge.Verdict.{set_status-worst}
use oj_backend.Judge.Verdict.Unordered.{verdict, union, verdict-union}
use oj_backend.Judge.Monitor.{
  Bytes, ExecutionResult, Monitor, initial, polled, interrupted, still_running, chunk, eof, again,
  WaitStatus, LastWait,
}
use oj_backend.Judge.Outcome.{
  Run, StatLine, usage, other_line, figures, finish, monitor_child, fresh_result,
}
use oj_backend.Judge.Reasons.{finish_no_peak, WaitsForever, monitor_child_ends}

set_status-worst_example :
    set_status (accepted ∷ wrong_answer ∷ time_limit_exceeded ∷ []) ≡ SubmissionStatus.wa
unfolding mask set_status
set_status-worst_example = set_status-worst (accepted ∷ wrong_answer ∷ time_limit_exceeded ∷ [])

verdict-union_example : set_status (accepted ∷ wrong_answer ∷ accepted ∷ []) ≡ SubmissionStatus.wa
unfolding mask set_status verdict union Status.decode_statuses Status.fold_statuses
    Status.add_status
verdict-union_example =
    verdict-union (Quot.mk (accepted ∷ [])) (Quot.mk (wrong_answer ∷ accepted ∷ []))

-- A run that wrote "7\n" and left its verdict open.
abbrev pub seven : ExecutionResult
seven = record {
  stdout = 55 ∷ 10 ∷ [];
  stderr = [];
  test_result = record fresh_result { exit_code = pos 0; memory_kb = pos 900; signal = pos 0 };
}

abbrev no_output : Bytes
no_output = []

abbrev limits : LimitsInfo ℕ
limits = record {
  time_limit_s = 1;
  extra_time_s = 1;
  wall_time_s = 2;
  memory_limit_kb = 1024;
  stack_limit_kb = 512;
}

abbrev ended : Monitor
ended = record initial { process_exited = true; stdout_data = 55 ∷ 10 ∷ [] }

abbrev ended_result : TestStatus → ℕ → ExecutionResult
ended_result s kb = record {
  stdout = 55 ∷ 10 ∷ [];
  stderr = [];
  test_result = record {
    duration_us = 40;
    exit_code = pos 0;
    memory_kb = pos kb;
    signal = pos 0;
    status = s;
  };
}

abbrev stat_lines : List StatLine
stat_lines = usage 40 ∷ other_line ∷ []

abbrev no_peak_result : ExecutionResult
no_peak_result = record {
  stdout = 55 ∷ 10 ∷ [];
  stderr = [];
  test_result = record {
    duration_us = 40;
    exit_code = pos 0;
    memory_kb = negsuc 0;
    signal = pos 0;
    status = memory_limit_exceeded;
  };
}

finish_no_peak_example : no_peak_result.test_result.status ≡ memory_limit_exceeded
unfolding finish
finish_no_peak_example =
    finish_no_peak ended stat_lines 1024 {r = no_peak_result} (omega arith) refl refl

-- A program that writes "7", and is still running at the deadline of 1000.
abbrev pub slow : Run
slow = record {
  rounds =
      record { now = 10; poll = polled (some (chunk (55 ∷ []))) none; wait = still_running }
      ∷ record { now = 500; poll = interrupted; wait = still_running }
      ∷ record { now = 1000; poll = interrupted; wait = still_running }
      ∷ [];
  last_wait = LastWait.reaps (WaitStatus.killed_by 9);
  stdout_rest = again ∷ eof ∷ [];
  stderr_rest = eof ∷ [];
  stats = figures (some 2048) (usage 40 ∷ []);
}

abbrev slow_end : Monitor
slow_end = record initial { stdout_data = 55 ∷ []; timeout = true }

abbrev pub slow_result : ExecutionResult
slow_result = record {
  stdout = 55 ∷ [];
  stderr = [];
  test_result = record {
    duration_us = 40;
    exit_code = negsuc 0;
    memory_kb = pos 2;
    signal = pos 9;
    status = time_limit_exceeded;
  };
}

monitor_child_ends_example : (monitor_child 1000 1024 slow ≡ none) ↔ WaitsForever 1000 slow
monitor_child_ends_example = monitor_child_ends 1000 1024 slow refl refl refl
