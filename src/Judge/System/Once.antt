-- ===== src/Judge/System/Once.antt =====
-- Actuator::initSystem (judge/src/actuators/Actuator.cpp) over repeated calls.
use oj_backend.Prelude.{◌≡◌, refl, Bool, true, false, ◌&&◌, ◌||◌, none, List, [], ◌∷◌, any, arith}
use oj_backend.Exceptions.Result.{Result, ok, err}
use oj_backend.Exceptions.Files.{
  check_file_exists, check_file_readable, check_file_writable, is_special_path,
}
use oj_backend.Judge.System.{
  SystemAnswers, is_zero, compile_policy, open_policy, system_checks, init_system,
}

abbrev pub succeeds : Result (Unit {0}) → Bool
succeeds (ok u) = true
succeeds (err e) = false

-- The calls one after the other: whether each of them returns, and the flag at the end.
abbrev pub init_all : List SystemAnswers → Bool → List Bool × Bool
init_all [] ready = ([], ready)
init_all (a ∷ rest) ready =
    let (r, ready') = init_system a ready in
    let (later, last) = init_all rest ready' in (succeeds r ∷ later, last)

-- The reference: a call returns if its own checks pass or those of an earlier call did.
abbrev pub returning : Bool → List SystemAnswers → List Bool
returning ready [] = []
returning ready (a ∷ rest) =
    (ready || succeeds (system_checks a)) ∷ returning (ready || succeeds (system_checks a)) rest

-- However often initSystem is called, a call returns exactly if its own checks pass or those of an
-- earlier call did, and the system counts as initialised exactly if the checks passed once.
pub init_all_lem :
    (ready : Bool) (calls : List SystemAnswers)
    → ((init_all calls ready).0 ≡ returning ready calls)
      × ((init_all calls ready).1 ≡ (ready || any (λ a. succeeds (system_checks a)) calls))
unfolding init_system
init_all_lem true [] = (refl, refl)
init_all_lem false [] = (refl, refl)
init_all_lem true (a ∷ rest) = ground (arith, init_all_lem true rest)
init_all_lem false (a ∷ rest) = ground (arith, init_all_lem true rest, init_all_lem false rest)

-- The checks of the server as root pass exactly if the two directories and the policy file exist,
-- the status of the directories can be read, and the policy file can be read, opened and compiled.
pub system_checks-ok_iff :
    (a : SystemAnswers)
    → a.proc.is_root ≡ true
    → a.cgroup_root.is_root ≡ true
    → a.proc.status_error ≡ none
    → a.cgroup_root.status_error ≡ none
    → succeeds (system_checks a) ≡ (
        a.proc.exists
        && a.cgroup_root.exists
        && a.policy.exists
        && succeeds (check_file_readable a.policy a.policy_path)
        && a.policy_opens
        && is_zero a.compile_result)
unfolding system_checks check_file_exists check_file_writable compile_policy open_policy
    is_special_path
system_checks-ok_iff a r1 r2 s1 s2 = ground arith
