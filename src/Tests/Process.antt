-- ===== src/Tests/Process.antt =====
-- The theorems on Actuator::execute (judge/src/actuators/Actuator.cpp) at concrete runs.
use oj_backend.Prelude.{◌≡◌, refl, any, true, false, pos, some, List, [], ◌∷◌, ◌+◌, ◌++◌, not, ◌&&◌}
use oj_backend.Exceptions.Result.{Error, err, ok}
use oj_backend.Judge.Process.{
  Fd, SystemCall, PipeAnswers, Answers, CgroupSetup, setup_done, setup_failed, create_pipes, feed,
  run_child, execute_program,
}
use oj_backend.Judge.Process.Descriptors.{
  opened, closed, one_if, cleans_up, execute_closes, execute_abandons,
}
use oj_backend.Tests.Judge.{seven}

-- A program that is run with an input of three bytes.
abbrev pub pipes_ok : PipeAnswers
pipes_ok = record {
  stdin_pipe = true;
  stdout_pipe = true;
  stderr_pipe = true;
  stdout_nonblock = true;
  stderr_nonblock = true;
}

abbrev answers : CgroupSetup → Answers
answers setup = record {
  pipes = pipes_ok;
  forked = true;
  input_size = 3;
  writes = some 2 ∷ some 1 ∷ [];
  setup = setup;
  monitored = ok seven;
  cleaned = true;
  errno = pos 0;
}

abbrev run_calls : List SystemCall
run_calls =
    SystemCall.opens Fd.stdin_read
    ∷ SystemCall.opens Fd.stdin_write
    ∷ SystemCall.opens Fd.stdout_read
    ∷ SystemCall.opens Fd.stdout_write
    ∷ SystemCall.opens Fd.stderr_read
    ∷ SystemCall.opens Fd.stderr_write
    ∷ SystemCall.forks
    ∷ SystemCall.closes Fd.stdin_read
    ∷ SystemCall.closes Fd.stdout_write
    ∷ SystemCall.closes Fd.stderr_write
    ∷ SystemCall.closes Fd.stdin_write
    ∷ []

abbrev supervised_calls : List SystemCall
supervised_calls =
    run_calls
    ++ SystemCall.makes_cgroup
      ∷ SystemCall.monitors
      ∷ SystemCall.closes Fd.stdout_read
      ∷ SystemCall.closes Fd.stderr_read
      ∷ SystemCall.removes_cgroup
      ∷ []

execute_closes_example :
    closed Fd.stdout_read supervised_calls + one_if ((create_pipes pipes_ok).0 && not true)
    ≡ opened Fd.stdout_read supervised_calls
unfolding execute_program run_child feed
execute_closes_example =
    execute_closes Fd.stdout_read (answers setup_done) {r = ok seven} {calls = supervised_calls}
      refl

abbrev abandoned_calls : List SystemCall
abandoned_calls =
    run_calls
    ++ SystemCall.makes_cgroup
      ∷ SystemCall.closes Fd.stdout_read
      ∷ SystemCall.closes Fd.stderr_read
      ∷ []

execute_abandons_example : any cleans_up abandoned_calls ≡ false
unfolding execute_program run_child feed
execute_abandons_example =
    execute_abandons (answers (setup_failed true)) true
      {r = err (Error.system (pos 0) "Actuator::execute")} {calls = abandoned_calls} refl refl refl
