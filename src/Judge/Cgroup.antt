-- ===== src/Judge/Cgroup.antt =====
-- Actuator::createCgroupForProcess and setupCgroupLimits (judge/src/actuators/Actuator.cpp): the
-- directory of a control group, the files that are written in it, and their texts.
pub mod Limits
use Prim.Native.String.{◌++◌ as join}
use oj_backend.Prelude.{
  ℕ, ◌+◌, ◌*◌, ◌%◌, u32_mod, ℤ, String, Bool, true, false, not, Option, none, some, List, [], ◌∷◌,
  ◌++◌, ◌==◌, to_string, if◌then◌else◌,
}
use oj_backend.Exceptions.Result.{Result, Error, ok, err}
use oj_backend.Exceptions.Files.{make_file_exception}
use oj_backend.Core.Types.{LimitsInfo}
use oj_backend.Judge.Process.{CgroupSetup, setup_done, setup_failed}

-- The files of a group that are written.
pub data CgroupFile : Type 0 where
  cpu_max memory_max memory_swap_max memory_oom_group cgroup_procs : CgroupFile

unfoldable pub file_name : CgroupFile → String
file_name cpu_max = "cpu.max"
file_name memory_max = "memory.max"
file_name memory_swap_max = "memory.swap.max"
file_name memory_oom_group = "memory.oom.group"
file_name cgroup_procs = "cgroup.procs"

pub data CgroupCall : Type 0 where
  makes_directory : String → CgroupCall
  writes : CgroupFile → String → CgroupCall

-- What the system answers: fs::create_directories, which returns false for a directory that is
-- there and throws otherwise, whether each file opens, and errno.
pub record CgroupAnswers : Type 0 where
  pub made : Result Bool
  pub opens : CgroupFile → Bool
  pub errno : ℤ

abbrev pub Setup : Type 0 → Type 0
Setup A = Result A × List CgroupCall

-- `(memory_limit_kb + 100) * 1024` in uint32_t
unfoldable pub memory_max_bytes : ℕ → ℕ
memory_max_bytes kb = (kb + 100) % u32_mod * 1024 % u32_mod

-- An std::ofstream that is not open drops what is written to it.
abbrev pub write_if : Bool → CgroupFile → String → List CgroupCall
write_if opened file text = if opened then writes file text ∷ [] else []

abbrev pub line : String → String
line text = join text "\n"

-- "judge_" + the server's id + "_" + the child's id
unfoldable pub cgroup_path : ℕ → ℕ → String
cgroup_path server pid =
    join "/sys/fs/cgroup/judge_" (join (to_string server) (join "_" (to_string pid)))

abbrev pub path_of : String → CgroupFile → String
path_of directory file = join directory (join "/" (file_name file))

abbrev and_then : Setup (Unit {0}) → Setup (Unit {0}) → Setup (Unit {0})
and_then (err e, calls) next = (err e, calls)
and_then (ok u, calls) (r, more) = (r, calls ++ more)

-- `quota` is the conversion of the sum of two times in seconds to whole microseconds.
module _ {F : Type 0} (quota : F → F → ℕ) where
  -- Actuator::setupCgroupLimits
  unfoldable pub setup_cgroup_limits : CgroupAnswers → String → LimitsInfo F → Setup (Unit {0})
  unfolding make_file_exception memory_max_bytes
  setup_cgroup_limits a directory limits =
      if not (a.opens cpu_max)
      then (err (make_file_exception a.errno (path_of directory cpu_max) "open cpu.max"), [])
      else (
        ok tt,
        writes cpu_max
              (line (join (to_string (quota limits.time_limit_s limits.extra_time_s)) " 1000000"))
            ∷ (write_if (a.opens memory_max) memory_max
                  (line (to_string (memory_max_bytes limits.memory_limit_kb)))
                ++ write_if (a.opens memory_swap_max) memory_swap_max (line "0")
                ++ write_if (a.opens memory_oom_group) memory_oom_group (line "1")),
      )

  -- The end of createCgroupForProcess: the child joins the group.
  unfoldable pub add_process : CgroupAnswers → String → ℕ → Setup (Unit {0})
  unfolding make_file_exception
  add_process a directory pid =
      if not (a.opens cgroup_procs)
      then (
        err (make_file_exception a.errno (path_of directory cgroup_procs) "open cgroup.procs"),
        [],
      )
      else (ok tt, writes cgroup_procs (line (to_string pid)) ∷ [])

  abbrev with_directory : String → Setup (Unit {0}) → Setup String
  with_directory directory (err e, calls) = (err e, makes_directory directory ∷ calls)
  with_directory directory (ok u, calls) = (ok directory, makes_directory directory ∷ calls)

  -- Actuator::createCgroupForProcess
  unfoldable pub create_cgroup_for_process : CgroupAnswers → ℕ → ℕ → LimitsInfo F → Setup String
  unfolding cgroup_path setup_cgroup_limits add_process make_file_exception
  create_cgroup_for_process a server pid limits =
      let directory = cgroup_path server pid in
      elim a.made [
        | err e ↦ (err e, [])
        | ok false ↦
            (err (make_file_exception a.errno directory "create cgroup dir for child process"), [])
        | ok true ↦
            with_directory directory
              (and_then (setup_cgroup_limits a directory limits) (add_process a directory pid))
      ]

-- What `execute` sees of the setup.
abbrev pub setup_of : Setup String → CgroupSetup
setup_of (ok path, calls) = setup_done
setup_of (err e, []) = setup_failed false
setup_of (err e, _ ∷ _) = setup_failed true
