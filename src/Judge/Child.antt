-- ===== src/Judge/Child.antt =====
-- What the child does between fork and exec: Actuator::setChildEnv and the child's branch of
-- Actuator::execute (judge/src/actuators/Actuator.cpp), with setupLanguageEnv and runChildProcess of
-- judge/src/actuators/CppActuator.cpp and judge/src/actuators/PythonActuator.cpp.
pub mod Confined
use oj_backend.Prelude.{
  ℕ, ◌*◌, ◌%◌, u32_mod, String, Bool, true, false, not, ◌||◌, List, [], ◌∷◌, ◌++◌, map,
  if◌then◌else◌,
}
use oj_backend.Judge.Commands.{PythonSettings, setup_language_env, python_argv}
use oj_backend.Judge.Process.{Fd}

-- A call of the child; a Boolean says whether it succeeds. `redirects` is dup2 to 0, 1 or 2.
pub data ChildCall : Type 0 where
  closes : Fd → ChildCall
  redirects : Fd → ℕ → ChildCall
  limits_stack : Bool → ℕ → ChildCall
  ignores_sigpipe : ChildCall
  unshares mounts_proc filters drops_group drops_user : Bool → ChildCall
  sets_env : String × String → ChildCall
  executes : String → List String → ChildCall
  exits : ChildCall

-- What the system answers to setrlimit, unshare, mount, prctl, setgid and setuid, and whether execv
-- succeeds.
pub record ChildAnswers : Type 0 where
  pub limited : Bool
  pub unshared : Bool
  pub mounted : Bool
  pub filtered : Bool
  pub group_dropped : Bool
  pub user_dropped : Bool
  pub executed : Bool

pub data Language : Type 0 where
  cpp_language : Language
  python_language : PythonSettings → Language

-- `stack_limit_kb * 1024` in uint32_t
unfoldable pub stack_limit : ℕ → ℕ
stack_limit kb = kb * 1024 % u32_mod

abbrev pub connect_pipes : List ChildCall
connect_pipes =
    closes Fd.stdin_write
    ∷ closes Fd.stdout_read
    ∷ closes Fd.stderr_read
    ∷ redirects Fd.stdin_read 0
    ∷ redirects Fd.stdout_write 1
    ∷ redirects Fd.stderr_write 2
    ∷ closes Fd.stdin_read
    ∷ closes Fd.stdout_write
    ∷ closes Fd.stderr_write
    ∷ []

-- setupLanguageEnv
unfoldable pub language_env : Language → List (String × String)
language_env cpp_language = []
language_env (python_language s) = setup_language_env s

-- The end of setChildEnv; whether it returns.
unfoldable pub drop_privileges : ChildAnswers → Bool × List ChildCall
drop_privileges a =
    if not a.group_dropped
    then (false, drops_group false ∷ exits ∷ [])
    else if not a.user_dropped
    then (false, drops_group true ∷ drops_user false ∷ exits ∷ [])
    else (true, drops_group true ∷ drops_user true ∷ [])

abbrev pub after_calls : List ChildCall → Bool × List ChildCall → Bool × List ChildCall
after_calls calls (returns, more) = (returns, calls ++ more)

-- The namespace, the mount and the filter; then the variables and the privileges.
unfoldable pub isolate : ChildAnswers → Language → Bool × List ChildCall
unfolding drop_privileges
isolate a language =
    if not a.unshared
    then (false, unshares false ∷ exits ∷ [])
    else if not a.mounted
    then (false, unshares true ∷ mounts_proc false ∷ exits ∷ [])
    else if not a.filtered
    then (false, unshares true ∷ mounts_proc true ∷ filters false ∷ exits ∷ [])
    else after_calls (unshares true ∷ mounts_proc true ∷ filters true ∷ [])
        (after_calls (map sets_env (language_env language)) (drop_privileges a))

-- Actuator::setChildEnv
unfoldable pub set_child_env : ChildAnswers → ℕ → Language → Bool × List ChildCall
unfolding isolate
set_child_env a stack_limit_kb language = after_calls connect_pipes (
    after_calls (limits_stack a.limited (stack_limit stack_limit_kb) ∷ ignores_sigpipe ∷ [])
      (isolate a language))

-- runChildProcess: the program and its arguments; `filename` is the last component of the path.
unfoldable pub command : Language → String → String → String × List String
command cpp_language exe_path filename = (exe_path, filename ∷ [])
command (python_language s) exe_path filename = (s.interpreter, python_argv s exe_path)

-- The child's branch of `execute`: the calls up to exec or exit.
unfoldable pub child_process : ChildAnswers → ℕ → Language → String → String → List ChildCall
unfolding set_child_env command
child_process a stack_limit_kb language exe_path filename =
    let (returns, calls) = set_child_env a stack_limit_kb language in
    let (program, argv) = command language exe_path filename in
    if returns
    then calls ++ (if a.executed then executes program argv ∷ [] else exits ∷ [])
    else calls
