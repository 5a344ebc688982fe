-- ===== src/Tests/Actuator.antt =====
-- The theorems on the parts of Actuator (judge/src/actuators/Actuator.cpp) at concrete children,
-- control groups and runs.
use oj_backend.Prelude.{
  ℕ, ◌*◌, ◌+◌, ◌<◌, ◌≡◌, ◌↔◌, refl, ◌⊎◌, String, pos, true, false, none, some, List, [], ◌∷◌, arith,
  if◌then◌else◌, ◌==◌, decimal,
}
use oj_backend.Exceptions.Result.{Error, ok}
use oj_backend.Exceptions.Files.{PathState, check_file_exists}
use oj_backend.Core.Types.{LimitsInfo}
use oj_backend.Judge.Commands.{PythonSettings, setup_language_env}
use oj_backend.Judge.Child.{
  ChildAnswers, python_language, stack_limit, language_env, drop_privileges, isolate, set_child_env,
  child_process,
}
use oj_backend.Judge.Child.Confined.{forked, run_calls, confined, child_process-confined}
use oj_backend.Judge.Cgroup.{
  CgroupFile, memory_max, CgroupAnswers, CgroupCall, memory_max_bytes, cgroup_path,
  setup_cgroup_limits, add_process, create_cgroup_for_process,
}
use oj_backend.Judge.Cgroup.Limits.{
  content, joins_last, create_cgroup_for_process_lem, limits_exact,
}
use oj_backend.Judge.Cleanup.{
  RmdirAnswer, removed, not_empty, rmdir_failed, Cgroup, cgroup, no_group, group_and,
  cleanup_cgroup,
}
use oj_backend.Judge.Cleanup.Walk.{is_cleanable, leaving, removals, throws, cleanup_cgroup_lem}

-- A Python program whose child is granted everything.
abbrev granted : ChildAnswers
granted = record {
  limited = true;
  unshared = true;
  mounted = true;
  filtered = true;
  group_dropped = true;
  user_dropped = true;
  executed = true;
}

abbrev python : PythonSettings
python = record {
  interpreter = "/usr/bin/python3";
  safe_path = "1";
  dont_write_bytecode = "-B";
  io_encoding = "";
  extra_args = [];
}

child_process-confined_example :
    run_calls forked (child_process granted 512 (python_language python) "/tmp/a.py" "a.py")
    ≡ confined (stack_limit 512) (language_env (python_language python))
unfolding child_process set_child_env isolate drop_privileges language_env setup_language_env
child_process-confined_example =
    child_process-confined granted 512 (python_language python) "/tmp/a.py" "a.py" refl refl

-- memory.swap.max cannot be opened.
abbrev pub setup_answers : CgroupAnswers
setup_answers = record {
  made = ok true;
  opens = λ file. elim file [ CgroupFile.memory_swap_max ↦ false | _ ↦ true ];
  errno = pos 0;
}

abbrev pub test_limits : LimitsInfo ℕ
test_limits = record {
  time_limit_s = 1;
  extra_time_s = 1;
  wall_time_s = 2;
  memory_limit_kb = 1024;
  stack_limit_kb = 512;
}

abbrev pub quota : ℕ → ℕ → ℕ
quota time extra = (time + extra) * 1000000

abbrev group_path : String
group_path = "/sys/fs/cgroup/judge_7_12"

abbrev setup_calls : List CgroupCall
setup_calls =
    CgroupCall.makes_directory group_path
    ∷ CgroupCall.writes CgroupFile.cpu_max "2000000 1000000\n"
    ∷ CgroupCall.writes CgroupFile.memory_max "1150976\n"
    ∷ CgroupCall.writes CgroupFile.memory_oom_group "1\n"
    ∷ CgroupCall.writes CgroupFile.cgroup_procs "12\n"
    ∷ []

create_cgroup_for_process_lem_example :
    (group_path ≡ cgroup_path 7 12)
    × (setup_answers.made ≡ ok true)
    × (true ≡ true)
    × (true ≡ true)
    × (joins_last setup_calls ≡ true)
    × (content memory_max setup_calls ≡ some "1150976\n")
unfolding create_cgroup_for_process setup_cgroup_limits add_process cgroup_path memory_max_bytes
    decimal
create_cgroup_for_process_lem_example =
    create_cgroup_for_process_lem quota setup_answers 7 12 test_limits memory_max
      {path = group_path} {calls = setup_calls} refl

limits_exact_example :
    ((memory_max_bytes 4194204 ≡ (4194204 + 100) * 1024) ↔ (4194204 < 4194204))
    × ((stack_limit 8192 ≡ 8192 * 1024) ↔ (8192 < 4194304))
limits_exact_example = limits_exact 4194204 8192 (omega arith) (omega arith)

-- A group with one group in it, which is not empty at first.
abbrev pub there : PathState
there = record {
  exists = true;
  is_directory = true;
  owner_read = true;
  owner_write = true;
  owner_exec = true;
  status_error = none;
  opens = false;
  header = [];
  accessible = true;
  errno = pos 0;
  is_root = true;
}

abbrev second_time : ℕ → RmdirAnswer
second_time attempt = if attempt == 0 then not_empty else removed

abbrev pub groups : Cgroup
groups =
    cgroup group_path there none
      (group_and (cgroup "/sys/fs/cgroup/judge_7_12/a" there none no_group second_time) no_group)
      (λ attempt. removed)

abbrev pub what : Error → String
what e = "error"

cleanup_cgroup_lem_example :
    ((is_cleanable groups ≡ true)
      × ((cleanup_cgroup what (pos 0) groups).0 ≡ ok tt)
      × (removals (cleanup_cgroup what (pos 0) groups).1 ≡ leaving groups))
    ⊎ ((is_cleanable groups ≡ false) × (throws (cleanup_cgroup what (pos 0) groups).0 ≡ true))
cleanup_cgroup_lem_example = cleanup_cgroup_lem what (pos 0) groups

-- A directory that is busy stays, and the cleanup returns all the same.
abbrev busy_group : Cgroup
busy_group = cgroup group_path there none no_group (λ attempt. rmdir_failed)

busy_stays :
    ((cleanup_cgroup what (pos 0) busy_group).0 ≡ ok tt)
    × (removals (cleanup_cgroup what (pos 0) busy_group).1 ≡ [])
unfolding cleanup_cgroup check_file_exists
busy_stays = (refl, refl)
