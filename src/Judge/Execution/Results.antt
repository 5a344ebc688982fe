-- ===== src/Judge/Execution/Results.antt =====
-- When Actuator::execute (judge/src/actuators/Actuator.cpp) returns a result.
use oj_backend.Prelude.{
  ℕ, ◌≡◌, ◌≢◌, ◌↔◌, inl, inr, refl, sym, ◌∙◌, ap, String, true, Option, none, some, List, length,
  arith, Option-cases, Bool-cases, if◌then◌else◌,
}
use oj_backend.Exceptions.Result.{Result, Error, ok, err}
use oj_backend.Core.Types.{LimitsInfo}
use oj_backend.Judge.Monitor.{Bytes, ExecutionResult}
use oj_backend.Judge.Process.{
  create_pipes, feed, Answers, SystemCall, setup_done, supervise, run_child, execute_program,
}
use oj_backend.Judge.Cgroup.{setup_of}
use oj_backend.Judge.Cleanup.{cleanup_cgroup}
use oj_backend.Judge.Cleanup.Walk.{is_cleanable, cleanup_cgroup_lem}
use oj_backend.Judge.Execution.{
  Machine, created, monitored, answers_of, is_done, gets_to_monitor, execute,
}

-- What it takes for `execute` to return.
abbrev pub Succeeds : Answers → ExecutionResult → Type 0
Succeeds a r =
    ((create_pipes a.pipes).0 ≡ true)
    × (a.forked ≡ true)
    × (feed a.input_size 0 a.writes ≡ some true)
    × (a.setup ≡ setup_done)
    × (a.monitored ≡ ok r)
    × (a.cleaned ≡ true)

-- What the caller of `execute` gets.
abbrev pub result_of :
    Option (Result ExecutionResult × List SystemCall) → Option (Result ExecutionResult)
result_of none = none
result_of (some (r, calls)) = some r

execute_program-Succeeds :
    (a : Answers) {r : ExecutionResult} → result_of (execute_program a) ≡ some (ok r) → Succeeds a r
unfolding execute_program run_child supervise
execute_program-Succeeds a h = ground arith

Succeeds-execute_program :
    (a : Answers) {r : ExecutionResult} → Succeeds a r → result_of (execute_program a) ≡ some (ok r)
unfolding execute_program run_child supervise
Succeeds-execute_program a (p, f, w, s, m, c) = ground arith

module _ {F : Type 0} (quota : F → F → ℕ) (micros : F → ℕ) (what : Error → String) where
  -- What a result of `execute` stands for, on a machine.
  abbrev pub Executed : Machine → LimitsInfo F → Bytes → ExecutionResult → Type 0
  Executed m limits input r =
      ((create_pipes m.pipes).0 ≡ true)
      × (m.forked ≡ true)
      × (feed (length input) 0 m.writes ≡ some true)
      × (setup_of (created quota micros what m limits) ≡ setup_done)
      × (monitored quota micros what m limits ≡ some (ok r))
      × (is_cleanable m.groups ≡ true)

  cleaned-cleanable :
      (m : Machine)
      → is_done (cleanup_cgroup what m.errno m.groups).0 ≡ true
      → is_cleanable m.groups ≡ true
  cleaned-cleanable m h = elim (cleanup_cgroup_lem what m.errno m.groups) [
    | inl (a, b, c) ↦ a
    | inr (a, b) ↦ absurd (ground (arith, b))
  ]

  cleanable-cleaned :
      (m : Machine)
      → is_cleanable m.groups ≡ true
      → is_done (cleanup_cgroup what m.errno m.groups).0 ≡ true
  cleanable-cleaned m h = elim (cleanup_cgroup_lem what m.errno m.groups) [
    | inl (a, b, c) ↦ rw b refl
    | inr (a, b) ↦ absurd (ground (arith, a))
  ]

  execute-monitored :
      (m : Machine) (limits : LimitsInfo F) (input : Bytes) (q : Result ExecutionResult)
      → monitored quota micros what m limits ≡ some q
      → execute quota micros what m limits input
        ≡ execute_program (answers_of quota micros what m limits input q)
  unfolding execute
  execute-monitored m limits input q e = rw (execute, e) refl

  execute-unmonitored :
      (m : Machine) (limits : LimitsInfo F) (input : Bytes)
      → monitored quota micros what m limits ≡ none
      → execute quota micros what m limits input ≡ (
          if gets_to_monitor quota micros what m limits input
          then none
          else execute_program
              (answers_of quota micros what m limits input (err (Error.runtime "not reached"))))
  unfolding execute
  execute-unmonitored m limits input e = rw (execute, e) refl

  not_monitored :
      (m : Machine) (limits : LimitsInfo F) (input : Bytes) {r : ExecutionResult}
      → monitored quota micros what m limits ≡ none
      → result_of (execute quota micros what m limits input) ≢ some (ok r)
  not_monitored m limits input {r} e h =
      let a : Answers =
        answers_of quota micros what m limits input (err (Error.runtime "not reached")) in
      let h' = sym (ap result_of (execute-unmonitored m limits input e)) ∙ h in
      elim (Bool-cases (gets_to_monitor quota micros what m limits input)) [
        | inl g ↦ absurd (ground (arith, g, h'))
        | inr g ↦
            let same = ap (λ b. result_of (if b then none else execute_program a)) g in
            let (p, f, w, s, q, c) = execute_program-Succeeds a {r = r} (sym same ∙ h') in cc
      ]

  pub execute-Executed :
      (m : Machine) (limits : LimitsInfo F) (input : Bytes) {r : ExecutionResult}
      → result_of (execute quota micros what m limits input) ≡ some (ok r)
      → Executed m limits input r
  execute-Executed m limits input {r} h =
      elim (Option-cases (monitored quota micros what m limits)) [
        | inl e ↦ absurd (not_monitored m limits input e h)
        | inr (q, e) ↦
            let (p, f, w, s, q', c) =
              execute_program-Succeeds (answers_of quota micros what m limits input q) {r = r}
                (sym (ap result_of (execute-monitored m limits input q e)) ∙ h) in
            (p, f, w, s, e ∙ ap (λ x. some x) q', cleaned-cleanable m c)
      ]

  pub Executed-execute :
      (m : Machine) (limits : LimitsInfo F) (input : Bytes) {r : ExecutionResult}
      → Executed m limits input r
      → result_of (execute quota micros what m limits input) ≡ some (ok r)
  Executed-execute m limits input {r} (p, f, w, s, q, c) =
      ap result_of (execute-monitored m limits input (ok r) q)
      ∙ Succeeds-execute_program (answers_of quota micros what m limits input (ok r))
          (p, f, w, s, refl, cleanable-cleaned m c)

  -- Actuator::execute returns a result exactly if the pipes and the child are made, the input is
  -- written, the control group is set up, monitorChild ends with this result, and every group of
  -- the tree is given up by the cleanup.
  pub execute-ok_iff :
      (m : Machine) (limits : LimitsInfo F) (input : Bytes) (r : ExecutionResult)
      → (result_of (execute quota micros what m limits input) ≡ some (ok r))
        ↔ Executed m limits input r
  execute-ok_iff m limits input r =
      (execute-Executed m limits input, Executed-execute m limits input)
