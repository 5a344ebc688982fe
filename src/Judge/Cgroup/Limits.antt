-- ===== src/Judge/Cgroup/Limits.antt =====
-- What the control group of a child holds when createCgroupForProcess
-- (judge/src/actuators/Actuator.cpp) returns.
use Prim.Native.String.{◌++◌ as join}
use oj_backend.Prelude.{
  ℕ, ◌+◌, ◌*◌, ◌<◌, u32_mod, ◌≡◌, ◌↔◌, String, Bool, true, false, Option, none, some, List, [], ◌∷◌,
  ◌==◌, to_string, arith, if◌then◌else◌,
}
use oj_backend.Exceptions.Result.{ok}
use oj_backend.Core.Types.{LimitsInfo}
use oj_backend.Judge.Child.{stack_limit}
use oj_backend.Judge.Cgroup.{
  CgroupFile, cpu_max, memory_max, memory_swap_max, memory_oom_group, cgroup_procs, CgroupCall,
  makes_directory, writes, CgroupAnswers, memory_max_bytes, cgroup_path, setup_cgroup_limits,
  add_process, create_cgroup_for_process,
}

abbrev file_index : CgroupFile → ℕ
file_index cpu_max = 0
file_index memory_max = 1
file_index memory_swap_max = 2
file_index memory_oom_group = 3
file_index cgroup_procs = 4

-- What a file holds after the calls, if something was written to it.
abbrev pub content : CgroupFile → List CgroupCall → Option String
content file [] = none
content file (makes_directory path ∷ rest) = content file rest
content file (writes other text ∷ rest) = elim (content file rest) [
  | some later ↦ some later
  | none ↦ if file_index file == file_index other then some text else none
]

-- Whether the child has joined the group before a limit was written.
abbrev pub joins_last : List CgroupCall → Bool
joins_last [] = true
joins_last (makes_directory path ∷ rest) = joins_last rest
joins_last (writes cgroup_procs text ∷ []) = true
joins_last (writes cgroup_procs text ∷ _ ∷ _) = false
joins_last (writes _ text ∷ rest) = joins_last rest

module _ {F : Type 0} (quota : F → F → ℕ) where
  -- The text that each file is to hold.
  abbrev pub wanted : LimitsInfo F → ℕ → CgroupFile → String
  wanted limits pid cpu_max =
      join (join (to_string (quota limits.time_limit_s limits.extra_time_s)) " 1000000") "\n"
  wanted limits pid memory_max = join (to_string (memory_max_bytes limits.memory_limit_kb)) "\n"
  wanted limits pid memory_swap_max = "0\n"
  wanted limits pid memory_oom_group = "1\n"
  wanted limits pid cgroup_procs = join (to_string pid) "\n"

  -- When createCgroupForProcess returns, it returns the path of the child in the hierarchy, a new
  -- directory; cpu.max and cgroup.procs have been opened, the child joins after every limit, and
  -- each file that could be opened holds its text. A file of the memory limits that could not be
  -- opened is passed over.
  pub create_cgroup_for_process_lem :
      (a : CgroupAnswers) (server pid : ℕ) (limits : LimitsInfo F) (file : CgroupFile)
      {path : String} {calls : List CgroupCall}
      → create_cgroup_for_process quota a server pid limits ≡ (ok path, calls)
      → (path ≡ cgroup_path server pid)
        × (a.made ≡ ok true)
        × (a.opens cpu_max ≡ true)
        × (a.opens cgroup_procs ≡ true)
        × (joins_last calls ≡ true)
        × (content file calls ≡ (if a.opens file then some (wanted limits pid file) else none))
  unfolding create_cgroup_for_process setup_cgroup_limits add_process
  create_cgroup_for_process_lem a server pid limits cpu_max h = ground arith
  create_cgroup_for_process_lem a server pid limits memory_max h = ground arith
  create_cgroup_for_process_lem a server pid limits memory_swap_max h = ground arith
  create_cgroup_for_process_lem a server pid limits memory_oom_group h = ground arith
  create_cgroup_for_process_lem a server pid limits cgroup_procs h = ground arith

memory_max_bytes_exact :
    (kb : ℕ) → kb < u32_mod → (memory_max_bytes kb ≡ (kb + 100) * 1024) ↔ (kb < 4194204)
unfolding memory_max_bytes
memory_max_bytes_exact kb h = omega arith

stack_limit_exact : (kb : ℕ) → (stack_limit kb ≡ kb * 1024) ↔ (kb < 4194304)
unfolding stack_limit
stack_limit_exact kb = omega arith

-- For limits that fit uint32_t, in kilobytes: the bytes written to memory.max are those of the
-- limit and 100 kB more exactly below 4194204 kB, and the bytes given to setrlimit are those of the
-- limit exactly below 4194304 kB; from there on the products have wrapped around.
pub limits_exact :
    (memory_kb stack_kb : ℕ)
    → memory_kb < u32_mod
    → stack_kb < u32_mod
    → ((memory_max_bytes memory_kb ≡ (memory_kb + 100) * 1024) ↔ (memory_kb < 4194204))
      × ((stack_limit stack_kb ≡ stack_kb * 1024) ↔ (stack_kb < 4194304))
limits_exact memory_kb stack_kb hm hs =
    (memory_max_bytes_exact memory_kb hm, stack_limit_exact stack_kb)
