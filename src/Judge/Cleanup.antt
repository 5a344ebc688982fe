-- ===== src/Judge/Cleanup.antt =====
-- Actuator::cleanupCgroup (judge/src/actuators/Actuator.cpp): the tree of control groups that it
-- walks, with the answers of the file system at each directory, and the calls that it makes.
pub mod Walk
use Prim.Native.String.{◌++◌ as join}
use oj_backend.Prelude.{ℕ, zero, suc, ◌+◌, ℤ, String, Option, none, some, List, [], ◌∷◌, ◌++◌}
use oj_backend.Exceptions.Result.{Result, Error, ok, err}
use oj_backend.Exceptions.Files.{PathState, check_file_exists}

-- rmdir(2): 0, ENOTEMPTY, another errno
pub data RmdirAnswer : Type 0 where
  removed not_empty rmdir_failed : RmdirAnswer

-- A directory: its path, what checkFileExists sees, the text of the exception if listing its entries
-- or asking whether they are directories throws, the directories in it in the order of the iterator,
-- and what rmdir answers to each attempt.
mutual
  pub data Cgroup : Type 0 where
    cgroup : String → PathState → Option String → Cgroups → (ℕ → RmdirAnswer) → Cgroup

  pub data Cgroups : Type 0 where
    no_group : Cgroups
    group_and : Cgroup → Cgroups → Cgroups

pub data CleanupCall : Type 0 where
  tries_rmdir : String → RmdirAnswer → CleanupCall
  sleeps_ms : ℕ → CleanupCall

abbrev pub Cleaned : Type 0
Cleaned = Result (Unit {0}) × List CleanupCall

-- One thing after the other; an exception leaves the second one undone.
unfoldable pub and_then : Cleaned → Cleaned → Cleaned
and_then (err e, calls) next = (err e, calls)
and_then (ok u, calls) (r, more) = (r, calls ++ more)

-- `what` is the text of an exception, `errno` what makeSystemException reads.
module _ (what : Error → String) (errno : ℤ) where
  -- The loop: `attempts` have been made, `left` are left of the three.
  unfoldable pub try_rmdir : String → (ℕ → RmdirAnswer) → ℕ → ℕ → Cleaned
  try_rmdir path rmdir attempts zero =
      (err (Error.system errno (join "Failed to remove cgroup after 3 attempts: " path)), [])
  try_rmdir path rmdir attempts (suc left) =
      let (r, calls) = try_rmdir path rmdir (attempts + 1) left in
      elim (rmdir attempts) [
        | removed ↦ (ok tt, tries_rmdir path removed ∷ [])
        | not_empty ↦ (r, tries_rmdir path not_empty ∷ sleeps_ms 100 ∷ calls)
        | rmdir_failed ↦ (ok tt, tries_rmdir path rmdir_failed ∷ [])
      ]

  -- The catch block.
  unfoldable pub rethrown : Cleaned → Cleaned
  rethrown (ok u, calls) = (ok u, calls)
  rethrown (err e, calls) =
      (err (Error.system errno (join "Cgroup cleanup error: " (what e))), calls)

  unfoldable pub checked : PathState → String → Cleaned
  unfolding check_file_exists
  checked state path = (check_file_exists state path, [])

  -- The loop over fs::directory_iterator; `failure` is what it throws.
  unfoldable pub listed : Option String → Cleaned
  listed none = (ok tt, [])
  listed (some failure) = (err (Error.runtime failure), [])

  unfoldable mutual
    unfolding try_rmdir rethrown checked listed and_then

    pub cleanup_cgroup : Cgroup → Cleaned
    cleanup_cgroup (cgroup path state failure subdirs rmdir) = rethrown (
        and_then (checked state path) (
          and_then (listed failure) (and_then (cleanup_groups subdirs) (try_rmdir path rmdir 0 3))))

    -- The loop over the sub-directories.
    pub cleanup_groups : Cgroups → Cleaned
    cleanup_groups no_group = (ok tt, [])
    cleanup_groups (group_and g rest) = and_then (cleanup_cgroup g) (cleanup_groups rest)
