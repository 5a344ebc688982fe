-- ===== src/Judge/Process.antt =====
-- Actuator::createPipes, execute and cleanupCgroup (judge/src/actuators/Actuator.cpp), by the calls
-- that they make on descriptors, on the child and on its control group. What the system answers is
-- an argument.
pub mod Descriptors
use oj_backend.Prelude.{
  ℕ, zero, suc, ◌+◌, ℤ, Bool, true, false, not, ◌&&◌, Option, none, some, List, [], ◌∷◌, ◌++◌, leb,
  if◌then◌else◌,
}
use oj_backend.Exceptions.Result.{Result, Error, ok, err}
use oj_backend.Judge.Monitor.{ExecutionResult}

-- The ends of the three pipes.
pub data Fd : Type 0 where
  stdin_read stdin_write stdout_read stdout_write stderr_read stderr_write : Fd

pub data SystemCall : Type 0 where
  opens closes : Fd → SystemCall
  forks kills reaps monitors makes_cgroup removes_cgroup : SystemCall

-- Whether pipe and fcntl succeed.
pub record PipeAnswers : Type 0 where
  pub stdin_pipe : Bool
  pub stdout_pipe : Bool
  pub stderr_pipe : Bool
  pub stdout_nonblock : Bool
  pub stderr_nonblock : Bool

abbrev opened_stdin : List SystemCall
opened_stdin = opens stdin_read ∷ opens stdin_write ∷ []

abbrev opened_stdout : List SystemCall
opened_stdout = opens stdout_read ∷ opens stdout_write ∷ []

abbrev opened_stderr : List SystemCall
opened_stderr = opens stderr_read ∷ opens stderr_write ∷ []

abbrev closed_stdin : List SystemCall
closed_stdin = closes stdin_read ∷ closes stdin_write ∷ []

abbrev closed_stdout : List SystemCall
closed_stdout = closes stdout_read ∷ closes stdout_write ∷ []

abbrev closed_stderr : List SystemCall
closed_stderr = closes stderr_read ∷ closes stderr_write ∷ []

abbrev pub all_opened : List SystemCall
all_opened = opened_stdin ++ opened_stdout ++ opened_stderr

abbrev all_closed : List SystemCall
all_closed = closed_stdin ++ closed_stdout ++ closed_stderr

-- Actuator::createPipes: whether it returns, and the calls
unfoldable pub create_pipes : PipeAnswers → Bool × List SystemCall
create_pipes a =
    if not a.stdin_pipe
    then (false, [])
    else if not a.stdout_pipe
    then (false, opened_stdin ++ closed_stdin)
    else if not a.stderr_pipe
    then (false, opened_stdin ++ opened_stdout ++ closed_stdin ++ closed_stdout)
    else if not a.stdout_nonblock
    then (false, all_opened ++ all_closed)
    else if not a.stderr_nonblock
    then (false, all_opened ++ all_closed)
    else (true, all_opened)

-- The loop that writes the input of `size` bytes. `none` as an answer of write is an error; `none`
-- as the result: the loop still runs.
unfoldable pub feed : ℕ → ℕ → List (Option ℕ) → Option Bool
feed size total [] = if leb size total then some true else none
feed size total (a ∷ rest) =
    let next : Option Bool = elim a [
      | none ↦ some false
      | some written ↦ feed size (total + written) rest
    ] in
    if leb size total then some true else next

-- createCgroupForProcess: done, or a throw before or after the directory was made
pub data CgroupSetup : Type 0 where
  setup_done : CgroupSetup
  setup_failed : Bool → CgroupSetup

-- What the system answers to one `execute`. `monitored` is what monitorChild returns or throws.
pub record Answers : Type 0 where
  pub pipes : PipeAnswers
  pub forked : Bool
  pub input_size : ℕ
  pub writes : List (Option ℕ)
  pub setup : CgroupSetup
  pub monitored : Result ExecutionResult
  pub cleaned : Bool
  pub errno : ℤ

abbrev failed : Answers → Result ExecutionResult
failed a = err (Error.system a.errno "Actuator::execute")

abbrev closed_reads : List SystemCall
closed_reads = closes stdout_read ∷ closes stderr_read ∷ []

abbrev cleanup_calls : Bool → List SystemCall
cleanup_calls cleaned = if cleaned then removes_cgroup ∷ [] else []

-- After monitorChild: a cleanup that throws replaces the result.
abbrev after_monitor : Answers → Result ExecutionResult
after_monitor a = elim a.monitored [
  | err e ↦ failed a
  | ok r ↦ if a.cleaned then ok r else failed a
]

-- From createCgroupForProcess on. If it throws, the path is still empty, and cleanupCgroup of the
-- empty path throws.
unfoldable pub supervise : Answers → Result ExecutionResult × List SystemCall
supervise a = elim a.setup [
  | setup_failed made ↦ (failed a, (if made then makes_cgroup ∷ [] else []) ++ closed_reads)
  | setup_done ↦
      (after_monitor a, makes_cgroup ∷ monitors ∷ (closed_reads ++ cleanup_calls a.cleaned))
]

abbrev after_fork : List SystemCall
after_fork = forks ∷ closes stdin_read ∷ closes stdout_write ∷ closes stderr_write ∷ []

abbrev abandoned : List SystemCall
abandoned = kills ∷ reaps ∷ closes stdin_write ∷ closed_reads

-- The parent's side, once the pipes are there.
unfoldable pub run_child : Answers → Option (Result ExecutionResult × List SystemCall)
unfolding feed supervise
run_child a = if not a.forked then some (failed a, []) else elim (feed a.input_size 0 a.writes) [
  | none ↦ none
  | some false ↦ some (failed a, after_fork ++ abandoned)
  | some true ↦ let (r, calls) = supervise a in some (r, after_fork ++ closes stdin_write ∷ calls)
]

abbrev prefixed :
    List SystemCall
    → Option (Result ExecutionResult × List SystemCall)
    → Option (Result ExecutionResult × List SystemCall)
prefixed calls none = none
prefixed calls (some (r, more)) = some (r, calls ++ more)

-- Actuator::execute, in the parent. `none`: it still writes the input.
unfoldable pub execute_program : Answers → Option (Result ExecutionResult × List SystemCall)
unfolding create_pipes run_child
execute_program a =
    let (done, calls) = create_pipes a.pipes in
    if done then prefixed calls (run_child a) else some (failed a, calls)
