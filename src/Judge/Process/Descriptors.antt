-- ===== src/Judge/Process/Descriptors.antt =====
-- What Actuator::execute (judge/src/actuators/Actuator.cpp) leaves behind: descriptors and
-- children.
use oj_backend.Prelude.{
  ℕ, ◌+◌, ◌≡◌, refl, Bool, true, false, not, ◌&&◌, some, List, [], ◌∷◌, ◌++◌, ◌==◌, if◌then◌else◌,
  any, ◌||◌, arith, inl, inr, Bool-cases, Option-cases,
}
use oj_backend.Exceptions.Result.{Result}
use oj_backend.Judge.Monitor.{ExecutionResult}
use oj_backend.Judge.Process.{
  Fd, SystemCall, PipeAnswers, create_pipes, feed, Answers, setup_failed, supervise, run_child,
  execute_program,
}

abbrev fd_index : Fd → ℕ
fd_index Fd.stdin_read = 0
fd_index Fd.stdin_write = 1
fd_index Fd.stdout_read = 2
fd_index Fd.stdout_write = 3
fd_index Fd.stderr_read = 4
fd_index Fd.stderr_write = 5

abbrev pub same_fd : Fd → Fd → Bool
same_fd a b = fd_index a == fd_index b

-- How often a descriptor is opened and closed.
abbrev pub opened : Fd → List SystemCall → ℕ
opened fd [] = 0
opened fd (SystemCall.opens g ∷ rest) = (if same_fd g fd then 1 else 0) + opened fd rest
opened fd (_ ∷ rest) = opened fd rest

abbrev pub closed : Fd → List SystemCall → ℕ
closed fd [] = 0
closed fd (SystemCall.closes g ∷ rest) = (if same_fd g fd then 1 else 0) + closed fd rest
closed fd (_ ∷ rest) = closed fd rest

abbrev pub one_if : Bool → ℕ
one_if true = 1
one_if false = 0

opened-append : (fd : Fd) (l m : List SystemCall) → opened fd (l ++ m) ≡ opened fd l + opened fd m
opened-append fd [] m = omega arith
opened-append fd (SystemCall.opens g ∷ rest) m = omega (arith, opened-append fd rest m)
opened-append fd (_ ∷ rest) m = opened-append fd rest m

closed-append : (fd : Fd) (l m : List SystemCall) → closed fd (l ++ m) ≡ closed fd l + closed fd m
closed-append fd [] m = omega arith
closed-append fd (SystemCall.closes g ∷ rest) m = omega (arith, closed-append fd rest m)
closed-append fd (_ ∷ rest) m = closed-append fd rest m

create_pipes_balance :
    (fd : Fd) (a : PipeAnswers)
    → closed fd (create_pipes a).1 + one_if (create_pipes a).0 ≡ opened fd (create_pipes a).1
unfolding create_pipes
create_pipes_balance Fd.stdin_read a = ground arith
create_pipes_balance Fd.stdin_write a = ground arith
create_pipes_balance Fd.stdout_read a = ground arith
create_pipes_balance Fd.stdout_write a = ground arith
create_pipes_balance Fd.stderr_read a = ground arith
create_pipes_balance Fd.stderr_write a = ground arith

-- The ends that the parent still has to close when it starts to supervise the child.
abbrev is_read_end : Fd → Bool
is_read_end Fd.stdout_read = true
is_read_end Fd.stderr_read = true
is_read_end _ = false

supervise_balance :
    (fd : Fd) (a : Answers)
    → (opened fd (supervise a).1 ≡ 0) × (closed fd (supervise a).1 ≡ one_if (is_read_end fd))
unfolding supervise
supervise_balance Fd.stdin_read a = ground arith
supervise_balance Fd.stdin_write a = ground arith
supervise_balance Fd.stdout_read a = ground arith
supervise_balance Fd.stdout_write a = ground arith
supervise_balance Fd.stderr_read a = ground arith
supervise_balance Fd.stderr_write a = ground arith

run_child_balance :
    (fd : Fd) (a : Answers) {r : Result ExecutionResult} {calls : List SystemCall}
    → run_child a ≡ some (r, calls)
    → (opened fd calls ≡ 0) × (closed fd calls ≡ one_if a.forked)
unfolding run_child
run_child_balance Fd.stdin_read a h = ground (arith, supervise_balance Fd.stdin_read a)
run_child_balance Fd.stdin_write a h = ground (arith, supervise_balance Fd.stdin_write a)
run_child_balance Fd.stdout_read a h = ground (arith, supervise_balance Fd.stdout_read a)
run_child_balance Fd.stdout_write a h = ground (arith, supervise_balance Fd.stdout_write a)
run_child_balance Fd.stderr_read a h = ground (arith, supervise_balance Fd.stderr_read a)
run_child_balance Fd.stderr_write a h = ground (arith, supervise_balance Fd.stderr_write a)

-- When `execute` returns or throws, every descriptor has been closed exactly as often as it was
-- opened, unless fork has failed: then each of the six is still open.
pub execute_closes :
    (fd : Fd) (a : Answers) {r : Result ExecutionResult} {calls : List SystemCall}
    → execute_program a ≡ some (r, calls)
    → closed fd calls + one_if ((create_pipes a.pipes).0 && not a.forked) ≡ opened fd calls
unfolding execute_program
execute_closes fd a {r} {calls} h =
    let b = create_pipes_balance fd a.pipes in
    elim (Bool-cases (create_pipes a.pipes).0) [
      | inr e ↦ ground (arith, b, e)
      | inl e ↦ elim (Option-cases (run_child a)) [
        | inl n ↦ absurd (ground (arith, e, n))
        | inr ((q, more), m) ↦
            let (o, c) = run_child_balance fd a m in
            ground (
              arith,
              b,
              e,
              m,
              o,
              c,
              opened-append fd (create_pipes a.pipes).1 more,
              closed-append fd (create_pipes a.pipes).1 more,
            )
      ]
    ]

-- What stops a child or waits for its end, and what removes a control group.
abbrev pub cleans_up : SystemCall → Bool
cleans_up SystemCall.kills = true
cleans_up SystemCall.reaps = true
cleans_up SystemCall.monitors = true
cleans_up SystemCall.removes_cgroup = true
cleans_up _ = false

any-append : (l m : List SystemCall) → any cleans_up (l ++ m) ≡ any cleans_up l || any cleans_up m
any-append [] m = refl
any-append (c ∷ rest) m = ground (arith, any-append rest m)

pipes_only : (a : PipeAnswers) → any cleans_up (create_pipes a).1 ≡ false
unfolding create_pipes
pipes_only a = ground arith

unsupervised :
    (a : Answers) (made : Bool) {r : Result ExecutionResult} {calls : List SystemCall}
    → a.setup ≡ setup_failed made
    → feed a.input_size 0 a.writes ≡ some true
    → run_child a ≡ some (r, calls)
    → any cleans_up calls ≡ false
unfolding run_child supervise
unsupervised a made s f h = ground (arith, s, f)

-- When the control group of a child that has its input cannot be set up, `execute` ends without
-- killing the child, without waiting for it, and without removing the group.
pub execute_abandons :
    (a : Answers) (made : Bool) {r : Result ExecutionResult} {calls : List SystemCall}
    → a.setup ≡ setup_failed made
    → feed a.input_size 0 a.writes ≡ some true
    → execute_program a ≡ some (r, calls)
    → any cleans_up calls ≡ false
unfolding execute_program
execute_abandons a made {r} {calls} s f h =
    let b = pipes_only a.pipes in
    elim (Bool-cases (create_pipes a.pipes).0) [
      | inr e ↦ ground (arith, b, e)
      | inl e ↦ elim (Option-cases (run_child a)) [
        | inl n ↦ absurd (ground (arith, e, n))
        | inr ((q, more), m) ↦
            let u = unsupervised a made s f m in
            ground (arith, b, e, m, u, any-append (create_pipes a.pipes).1 more)
      ]
    ]
