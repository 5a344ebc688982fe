-- ===== src/Judge/Child/Confined.antt =====
-- In what state a submitted program starts: the calls of the child
-- (judge/src/actuators/Actuator.cpp) as changes of the state of its process.
use mathlib.Core.List.{append-nil, append_assoc}
use oj_backend.Prelude.{
  ℕ, ◌≡◌, refl, String, Bool, true, false, ◌||◌, ◌&&◌, ◌==◌, Option, none, some, List, [], ◌∷◌,
  ◌++◌, map, any, arith, if◌then◌else◌, Bool-cases, inl, inr,
}
use oj_backend.Judge.Process.{Fd}
use oj_backend.Judge.Process.Descriptors.{same_fd}
use oj_backend.Judge.Child.{
  ChildCall, closes, redirects, limits_stack, ignores_sigpipe, unshares, mounts_proc, filters,
  drops_group, drops_user, sets_env, executes, exits, ChildAnswers, Language, stack_limit,
  language_env, drop_privileges, isolate, set_child_env, command, child_process,
}

-- The child's process: what 0, 1 and 2 stand for, the ends of the pipes that are open, the limit on
-- the stack, and what has been given up.
pub record ChildState : Type 0 where
  pub stdin : Option Fd
  pub stdout : Option Fd
  pub stderr : Option Fd
  pub pipe_ends : List Fd
  pub stack : Option ℕ
  pub ignores_pipe : Bool
  pub own_namespace : Bool
  pub own_proc : Bool
  pub has_filter : Bool
  pub env : List (String × String)
  pub plain_group : Bool
  pub plain_user : Bool

abbrev pub forked : ChildState
forked = record {
  stdin = none;
  stdout = none;
  stderr = none;
  pipe_ends =
      Fd.stdin_read ∷ Fd.stdin_write ∷ Fd.stdout_read ∷ Fd.stdout_write ∷ Fd.stderr_read
      ∷ Fd.stderr_write ∷ [];
  stack = none;
  ignores_pipe = false;
  own_namespace = false;
  own_proc = false;
  has_filter = false;
  env = [];
  plain_group = false;
  plain_user = false;
}

abbrev pub without : Fd → List Fd → List Fd
without fd [] = []
without fd (g ∷ rest) = let more = without fd rest in if same_fd fd g then more else g ∷ more

abbrev pub is_open : Fd → List Fd → Bool
is_open fd = any (same_fd fd)

-- dup2 of a descriptor that is open.
abbrev pub redirected : ChildState → Fd → ℕ → ChildState
redirected s fd target =
    if target == 0
    then record s { stdin = some fd }
    else if target == 1
    then record s { stdout = some fd }
    else if target == 2
    then record s { stderr = some fd }
    else s

unfoldable pub apply : ChildState → ChildCall → ChildState
apply s (closes fd) = record s { pipe_ends = without fd s.pipe_ends }
apply s (redirects fd target) = if is_open fd s.pipe_ends then redirected s fd target else s
apply s (limits_stack done bytes) = if done then record s { stack = some bytes } else s
apply s ignores_sigpipe = record s { ignores_pipe = true }
apply s (unshares done) = record s { own_namespace = done }
apply s (mounts_proc done) = record s { own_proc = done }
apply s (filters done) = record s { has_filter = done }
apply s (sets_env assignment) = record s { env = s.env ++ assignment ∷ [] }
apply s (drops_group done) = record s { plain_group = done }
apply s (drops_user done) = record s { plain_user = done }
apply s (executes program argv) = s
apply s exits = s

unfoldable pub run_calls : ChildState → List ChildCall → ChildState
unfolding apply
run_calls s [] = s
run_calls s (call ∷ rest) = run_calls (apply s call) rest

abbrev pub is_exec : ChildCall → Bool
is_exec (executes program argv) = true
is_exec _ = false

-- The state that a program is meant to start in.
abbrev pub confined : ℕ → List (String × String) → ChildState
confined stack_bytes env = record {
  stdin = some Fd.stdin_read;
  stdout = some Fd.stdout_write;
  stderr = some Fd.stderr_write;
  pipe_ends = [];
  stack = some stack_bytes;
  ignores_pipe = true;
  own_namespace = true;
  own_proc = true;
  has_filter = true;
  env = env;
  plain_group = true;
  plain_user = true;
}

run_calls-append :
    (s : ChildState) (l m : List ChildCall) → run_calls s (l ++ m) ≡ run_calls (run_calls s l) m
unfolding run_calls
run_calls-append s [] m = refl
run_calls-append s (call ∷ rest) m = run_calls-append (apply s call) rest m

run_calls-env :
    (s : ChildState) (env : List (String × String))
    → run_calls s (map sets_env env) ≡ record s { env = s.env ++ env }
unfolding run_calls
run_calls-env s [] = rw (append-nil s.env) refl
run_calls-env s (assignment ∷ rest) =
    rw
      (
        run_calls-env (apply s (sets_env assignment)) rest,
        append_assoc s.env (assignment ∷ []) rest,
      )
      refl

any-append : {A : Type 0} (p : A → Bool) (l m : List A) → any p (l ++ m) ≡ (any p l || any p m)
any-append p [] m = refl
any-append p (x ∷ l) m = ground (arith, any-append p l m)

no_exec-env : (env : List (String × String)) → any is_exec (map sets_env env) ≡ false
no_exec-env [] = refl
no_exec-env (assignment ∷ rest) = no_exec-env rest

-- The first half never executes a program, and returns only if every call of it succeeds.
no_exec-set_child_env :
    (a : ChildAnswers) (kb : ℕ) (language : Language)
    → any is_exec (set_child_env a kb language).1 ≡ false
unfolding set_child_env isolate drop_privileges
no_exec-set_child_env a kb language = ground (
  arith,
  no_exec-env (language_env language),
  any-append is_exec (map sets_env (language_env language)) (drop_privileges a).1,
)

returns-set_child_env :
    (a : ChildAnswers) (kb : ℕ) (language : Language)
    → (set_child_env a kb language).0 ≡ true
    → (a.unshared ≡ true)
      × (a.mounted ≡ true)
      × (a.filtered ≡ true)
      × (a.group_dropped ≡ true)
      × (a.user_dropped ≡ true)
unfolding set_child_env isolate drop_privileges
returns-set_child_env a kb language h = ground arith

-- The last calls, on a state without variables.
run_calls-privileges :
    (s : ChildState) (env : List (String × String))
    → s.env ≡ []
    → run_calls s (map sets_env env ++ drops_group true ∷ drops_user true ∷ [])
      ≡ record s { env = env; plain_group = true; plain_user = true }
unfolding run_calls
run_calls-privileges s env none_yet =
    rw
      (
        run_calls-append s (map sets_env env) (drops_group true ∷ drops_user true ∷ []),
        run_calls-env s env,
        none_yet,
      )
      refl

state-set_child_env :
    (a : ChildAnswers) (kb : ℕ) (language : Language)
    → a.limited ≡ true
    → (set_child_env a kb language).0 ≡ true
    → run_calls forked (set_child_env a kb language).1
      ≡ confined (stack_limit kb) (language_env language)
unfolding set_child_env isolate drop_privileges run_calls
state-set_child_env a kb language limited h =
    let (e1, e2, e3, e4, e5) = returns-set_child_env a kb language h in
    rw (e1, e2, e3, e4, e5, limited) (run_calls-privileges _ (language_env language) refl)

executes-child_process :
    (a : ChildAnswers) (kb : ℕ) (language : Language) (exe_path filename : String)
    → any is_exec (child_process a kb language exe_path filename) ≡ true
    → (set_child_env a kb language).0 ≡ true
unfolding child_process
executes-child_process a kb language exe_path filename h =
    ground (arith, no_exec-set_child_env a kb language)

-- A program that the child executes starts confined, if setrlimit succeeds: 0, 1 and 2 are the ends
-- of the three pipes and no other end is open, the stack is limited, SIGPIPE is ignored, the
-- process has its own mount namespace and /proc, the system call filter, the variables of its
-- language, and neither the group nor the user of the server.
pub child_process-confined :
    (a : ChildAnswers) (kb : ℕ) (language : Language) (exe_path filename : String)
    → a.limited ≡ true
    → any is_exec (child_process a kb language exe_path filename) ≡ true
    → run_calls forked (child_process a kb language exe_path filename)
      ≡ confined (stack_limit kb) (language_env language)
unfolding child_process run_calls
child_process-confined a kb language exe_path filename limited h =
    let returns = executes-child_process a kb language exe_path filename h in
    let calls : List ChildCall = (set_child_env a kb language).1 in
    let (program, argv) = command language exe_path filename in
    rw
      (
        returns,
        run_calls-append forked calls
            (if a.executed then executes program argv ∷ [] else exits ∷ []),
        state-set_child_env a kb language limited returns,
      )
      (elim (Bool-cases a.executed) [ inl e ↦ rw e refl | inr e ↦ rw e refl ])

set_child_env-returns :
    (a : ChildAnswers) (kb : ℕ) (language : Language)
    → (set_child_env a kb language).0
      ≡ (a.unshared && a.mounted && a.filtered && a.group_dropped && a.user_dropped)
unfolding set_child_env isolate drop_privileges
set_child_env-returns a kb language = ground arith

-- The child executes the program exactly if every call but setrlimit succeeds.
pub child_process-exec_iff :
    (a : ChildAnswers) (kb : ℕ) (language : Language) (exe_path filename : String)
    → any is_exec (child_process a kb language exe_path filename)
      ≡ (a.unshared && a.mounted && a.filtered && a.group_dropped && a.user_dropped && a.executed)
unfolding child_process
child_process-exec_iff a kb language exe_path filename =
    let calls : List ChildCall = (set_child_env a kb language).1 in
    let (program, argv) = command language exe_path filename in
    ground (
      arith,
      no_exec-set_child_env a kb language,
      set_child_env-returns a kb language,
      any-append is_exec calls (exits ∷ []),
      any-append is_exec calls (executes program argv ∷ []),
    )
