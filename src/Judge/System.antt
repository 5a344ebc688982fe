-- ===== src/Judge/System.antt =====
-- Actuator::initSystem (judge/src/actuators/Actuator.cpp): the checks that are made once before the
-- first program runs, and the compilation of the system call policy.
pub mod Once
use Prim.Native.String.{◌++◌}
use oj_backend.Prelude.{
  ℤ, pos, negsuc, String, Bool, true, false, not, Option, none, some, leb, if◌then◌else◌,
}
use oj_backend.Exceptions.Result.{Result, Error, ok, err, ◌>>=◌, ◌>>◌}
use oj_backend.Exceptions.Files.{
  PathState, check_file_exists, check_file_readable, check_file_writable,
}

-- What is found: the states of /proc, of the root of the control groups and of the policy file,
-- whether that file can be opened, and what kafel_compile and kafel_error_msg return.
pub record SystemAnswers : Type 0 where
  pub proc : PathState
  pub cgroup_root : PathState
  pub policy : PathState
  pub policy_path : String
  pub policy_opens : Bool
  pub compile_result : ℤ
  pub error_message : Option String
  pub errno : ℤ

abbrev pub is_zero : ℤ → Bool
is_zero (pos n) = leb n 0
is_zero (negsuc n) = false

-- The error path reads the message without the test for a null pointer that the line before has.
unfoldable pub compile_policy : SystemAnswers → Result (Unit {0})
compile_policy a = if is_zero a.compile_result then ok tt else elim a.error_message [
  | none ↦ err (Error.undefined "*error_ptr")
  | some text ↦ err (Error.system a.compile_result ("Kafel compile failed, error_msg: " ++ text))
]

unfoldable pub open_policy : SystemAnswers → Result (Unit {0})
open_policy a =
    if a.policy_opens
    then ok tt
    else err (Error.system a.errno ("kafel policy file " ++ a.policy_path ++ " open failed"))

-- The function that call_once runs.
unfoldable pub system_checks : SystemAnswers → Result (Unit {0})
unfolding compile_policy open_policy check_file_exists check_file_readable check_file_writable
system_checks a = do
  _ ← check_file_exists a.proc "/proc"
  _ ← check_file_writable a.proc "/proc"
  _ ← check_file_exists a.cgroup_root "/sys/fs/cgroup"
  _ ← check_file_writable a.cgroup_root "/sys/fs/cgroup"
  _ ← check_file_exists a.policy a.policy_path
  _ ← check_file_readable a.policy a.policy_path
  _ ← open_policy a
  compile_policy a

-- Actuator::initSystem; the flag is IS_SYSTEM_INITIALIZED. An exception leaves the once_flag open,
-- so that the next call tries again.
unfoldable pub init_system : SystemAnswers → Bool → Result (Unit {0}) × Bool
unfolding system_checks
init_system a true = (ok tt, true)
init_system a false = elim (system_checks a) [ err e ↦ (err e, false) | ok u ↦ (ok tt, true) ]
