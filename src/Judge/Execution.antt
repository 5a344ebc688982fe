-- ===== src/Judge/Execution.antt =====
-- Actuator::execute and its parts put together (judge/src/actuators/Actuator.cpp), and the end of
-- Judger::judge (judge/src/Judger.cpp) behind it: one test of one program.
pub mod Ended
pub mod Waits
pub mod Results
pub mod Accepted
use oj_backend.Prelude.{
  ℕ, ◌+◌, ◌*◌, ℤ, String, Bool, true, false, not, ◌&&◌, Option, none, some, List, length,
  if◌then◌else◌,
}
use oj_backend.Exceptions.Result.{Result, Error, ok, err}
use oj_backend.Core.Types.{LimitsInfo}
use oj_backend.Judge.Status.{TestResult}
use oj_backend.Judge.Monitor.{Bytes, ExecutionResult}
use oj_backend.Judge.Outcome.{Run, monitor_child}
use oj_backend.Judge.Cgroup.{CgroupAnswers, Setup, create_cgroup_for_process, setup_of}
use oj_backend.Judge.Cleanup.{Cgroup, cleanup_cgroup}
use oj_backend.Judge.Process.{PipeAnswers, create_pipes, feed, Answers, SystemCall, execute_program}
use oj_backend.Judge.Judger.{after_execution}

-- What the system answers to one run: `start` is the clock in nanoseconds when the child is
-- started, `groups` the control group and the groups below it as cleanupCgroup finds them.
pub record Machine : Type 0 where
  pub pipes : PipeAnswers
  pub forked : Bool
  pub writes : List (Option ℕ)
  pub server : ℕ
  pub pid : ℕ
  pub cgroup : CgroupAnswers
  pub start : ℕ
  pub run : Run
  pub groups : Cgroup
  pub errno : ℤ

abbrev pub is_done : Result (Unit {0}) → Bool
is_done (ok u) = true
is_done (err e) = false

-- `quota` and `micros` are the conversions of times in seconds to whole microseconds, `what` the
-- text of an exception.
module _ {F : Type 0} (quota : F → F → ℕ) (micros : F → ℕ) (what : Error → String) where
  abbrev pub created : Machine → LimitsInfo F → Setup String
  created m limits = create_cgroup_for_process quota m.cgroup m.server m.pid limits

  -- start_time + wall_time_s
  abbrev pub deadline_of : Machine → LimitsInfo F → ℕ
  deadline_of m limits = m.start + micros limits.wall_time_s * 1000

  abbrev pub monitored : Machine → LimitsInfo F → Option (Result ExecutionResult)
  monitored m limits = monitor_child (deadline_of m limits) limits.memory_limit_kb m.run

  abbrev pub answers_of : Machine → LimitsInfo F → Bytes → Result ExecutionResult → Answers
  answers_of m limits input r = record {
    pipes = m.pipes;
    forked = m.forked;
    input_size = length input;
    writes = m.writes;
    setup = setup_of (created m limits);
    monitored = r;
    cleaned = is_done (cleanup_cgroup what m.errno m.groups).0;
    errno = m.errno;
  }

  abbrev is_fed : Option Bool → Bool
  is_fed (some true) = true
  is_fed _ = false

  abbrev is_set_up : Setup String → Bool
  is_set_up (ok path, calls) = true
  is_set_up (err e, calls) = false

  -- Whether `execute` gets to monitorChild.
  unfoldable pub gets_to_monitor : Machine → LimitsInfo F → Bytes → Bool
  gets_to_monitor m limits input =
      (create_pipes m.pipes).0
      && (m.forked && (is_fed (feed (length input) 0 m.writes) && is_set_up (created m limits)))

  -- Where monitorChild is not reached, what it would answer does not matter.
  unfoldable pub execute :
      Machine → LimitsInfo F → Bytes → Option (Result ExecutionResult × List SystemCall)
  execute m limits input = elim (monitored m limits) [
    | some r ↦ execute_program (answers_of m limits input r)
    | none ↦
        if gets_to_monitor m limits input
        then none
        else execute_program (answers_of m limits input (err (Error.runtime "not reached")))
  ]

  -- The verdict on one test. `none`: the run does not end, or the comparison is undefined.
  unfoldable pub judge_run : Machine → LimitsInfo F → Bytes → Bytes → Option (Result TestResult)
  judge_run m limits input expected = elim (execute m limits input) [
    | none ↦ none
    | some (r, calls) ↦ after_execution r expected
  ]
