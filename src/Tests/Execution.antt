-- ===== src/Tests/Execution.antt =====
-- The theorems on whole runs (judge/src/actuators/Actuator.cpp, judge/src/Judger.cpp) at a program
-- that reads three bytes and writes "7\n" in two pieces.
use oj_backend.Prelude.{decimal, ℕ, ◌*◌, ◌≡◌, ◌↔◌, refl, pos, true, none, some, [], ◌∷◌, ◌++◌, map}
use oj_backend.Exceptions.Result.{ok}
use oj_backend.Exceptions.Files.{check_file_exists}
use oj_backend.Core.Enums.{LangId}
use oj_backend.Judge.Status.{TestResult, accepted, mask, add_status, fold_statuses, decode_statuses}
use oj_backend.Judge.Report.{JudgeResult, make_judge_result, set_result_status, judge_result_text}
use oj_backend.Judge.Monitor.{
  Bytes, ExecutionResult, wait_fails, initial, watch, round, drain, reap, polled, chunk, eof, again,
  still_running, reaped, exited_with,
}
use oj_backend.Judge.Outcome.{Run, usage, figures, monitor_child, finish, drain_both, fresh_result}
use oj_backend.Judge.Streams.{stream, outs, errs}
use oj_backend.Judge.Output.{served, monitor_child_output}
use oj_backend.Judge.Execution.{Machine, execute, judge_run, gets_to_monitor}
use oj_backend.Judge.Process.{execute_program, create_pipes, run_child, feed, supervise}
use oj_backend.Judge.Cgroup.{create_cgroup_for_process, setup_cgroup_limits, add_process}
use oj_backend.Judge.Cleanup.{cleanup_cgroup}
use oj_backend.Judge.Judger.{after_execution, decide, compare_output, strip_newline}
use oj_backend.Judge.Execution.Results.{result_of, Executed, execute-ok_iff}
use oj_backend.Judge.Execution.Accepted.{Passed, judge_run-accepted_iff}
use oj_backend.Tests.Process.{pipes_ok}
use oj_backend.Tests.Actuator.{test_limits, quota, groups, what, setup_answers}

abbrev quick : Run
quick = record {
  rounds =
      record { now = 10; poll = polled (some (chunk (55 ∷ []))) none; wait = still_running }
      ∷ record { now = 20; poll = polled (some again) (some eof); wait = reaped (exited_with 0) }
      ∷ [];
  last_wait = wait_fails;
  stdout_rest = chunk (10 ∷ []) ∷ eof ∷ [];
  stderr_rest = eof ∷ [];
  stats = figures (some 2048) (usage 40 ∷ []);
}

abbrev pub quick_result : ExecutionResult
quick_result = record {
  stdout = 55 ∷ 10 ∷ [];
  stderr = [];
  test_result = record fresh_result {
    duration_us = 40;
    exit_code = pos 0;
    memory_kb = pos 2;
    signal = pos 0;
  };
}

monitor_child_output_example :
    (quick_result.stdout
      ≡ stream true (outs (served 1000 initial quick.rounds) quick.rounds)
        ++ stream true (map (λ x. some x) quick.stdout_rest))
    × (quick_result.stderr
        ≡ stream true (errs (served 1000 initial quick.rounds) quick.rounds)
          ++ stream true (map (λ x. some x) quick.stderr_rest))
unfolding monitor_child watch round drain_both drain finish reap
monitor_child_output_example = monitor_child_output 1000 1024 quick {r = quick_result} refl

abbrev pub machine : Machine
machine = record {
  pipes = pipes_ok;
  forked = true;
  writes = some 2 ∷ some 1 ∷ [];
  server = 7;
  pid = 12;
  cgroup = setup_answers;
  start = 0;
  run = quick;
  groups = groups;
  errno = pos 0;
}

abbrev pub micros : ℕ → ℕ
micros seconds = seconds * 1000000

abbrev pub input : Bytes
input = 49 ∷ 32 ∷ 50 ∷ []

execute-ok_iff_example :
    (result_of (execute quota micros what machine test_limits input) ≡ some (ok quick_result))
    ↔ Executed quota micros what machine test_limits input quick_result
execute-ok_iff_example = execute-ok_iff quota micros what machine test_limits input quick_result

judge_run-accepted_iff_example :
    ((t : TestResult) × (judge_run quota micros what machine test_limits input (55 ∷ [])
        ≡ some (ok t))
      × (t.status ≡ accepted))
    ↔ ((r : ExecutionResult) × Passed quota micros what machine test_limits input (55 ∷ []) r)
judge_run-accepted_iff_example =
    judge_run-accepted_iff quota micros what machine test_limits input (55 ∷ [])

-- The run is accepted.
accepted_seven :
    judge_run quota micros what machine test_limits input (55 ∷ [])
    ≡ some (ok (record quick_result.test_result { status = accepted }))
unfolding judge_run execute gets_to_monitor execute_program create_pipes run_child feed supervise
    create_cgroup_for_process setup_cgroup_limits add_process cleanup_cgroup check_file_exists
    monitor_child watch round drain_both drain finish reap after_execution decide compare_output
    strip_newline
accepted_seven = refl

-- A submission with one accepted test.
abbrev reported : JudgeResult
reported = record (make_judge_result "Sum" "s1" LangId.cpp) {
  results =
      record fresh_result {
        duration_us = 1200;
        memory_kb = pos 900;
        exit_code = pos 0;
        status = accepted;
      }
      ∷ [];
}

report_text :
    judge_result_text (set_result_status reported)
    ≡ "Problem: Sum\nSubmissionId: s1\nStatus: ACCEPT\nCompile Message: \nTestResults: [\n  Status: ACCEPTED\n  Runtime: 1200 us\n  Memory: 900 KB\n  Exit Code: 0\n  Exit Signal: -1\n]\n\n"
unfolding judge_result_text set_result_status make_judge_result decode_statuses fold_statuses
    add_status mask decimal
report_text = refl
