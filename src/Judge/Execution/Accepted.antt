-- ===== src/Judge/Execution/Accepted.antt =====
-- What it means that a test is accepted: Actuator::execute and the end of Judger::judge
-- (judge/src/actuators/Actuator.cpp, judge/src/Judger.cpp).
use oj_backend.Judge.Execution.Ended.{
  EndedWell, open-EndedWell, EndedWell-open, closed_verdict, accepted_result,
}
use oj_backend.Judge.Execution.Results.{result_of, Executed, execute-Executed, Executed-execute}
use oj_backend.Prelude.{
  ℕ, ◌≡◌, ◌↔◌, inl, inr, refl, ◌∙◌, ap, String, Option, none, some, List, arith, Option-cases,
}
use oj_backend.Exceptions.Result.{Result, Error, ok, err}
use oj_backend.Core.Types.{LimitsInfo}
use oj_backend.Judge.Monitor.{Bytes, ExecutionResult}
use oj_backend.Judge.Status.{TestResult, accepted}
use oj_backend.Judge.Comparison.{IsLine, decide-accepted_iff}
use oj_backend.Judge.Judger.{decide, after_execution}
use oj_backend.Judge.Process.{SystemCall}
use oj_backend.Judge.Execution.{Machine, deadline_of, execute, judge_run}

compared :
    (x : Option (Result ExecutionResult × List SystemCall)) (expected : Bytes) {t : TestResult}
    → (elim x [ none ↦ none | some (r, calls) ↦ after_execution r expected ]) ≡ some (ok t)
    → (r : ExecutionResult) × (result_of x ≡ some (ok r)) × (decide r expected ≡ some t)
unfolding after_execution
compared none expected h = cc
compared (some (err e, calls)) expected h = cc
compared (some (ok r, calls)) expected h = elim (Option-cases (decide r expected)) [
  | inl e ↦ absurd (ground (arith, e))
  | inr (t, e) ↦ (r, refl, ground (arith, e))
]

module _ {F : Type 0} (quota : F → F → ℕ) (micros : F → ℕ) (what : Error → String) where
  -- What an accepted test stands for.
  abbrev pub Passed : Machine → LimitsInfo F → Bytes → Bytes → ExecutionResult → Type 0
  Passed m limits input expected r =
      Executed quota micros what m limits input r
      × EndedWell (deadline_of quota micros what m limits) limits.memory_limit_kb m.run
      × IsLine r.stdout expected

  judge_run-result :
      (m : Machine) (limits : LimitsInfo F) (input expected : Bytes) {t : TestResult}
      → judge_run quota micros what m limits input expected ≡ some (ok t)
      → (r : ExecutionResult) × (result_of (execute quota micros what m limits input) ≡ some (ok r))
        × (decide r expected ≡ some t)
  unfolding judge_run
  judge_run-result m limits input expected h =
      compared (execute quota micros what m limits input) expected h

  result-judge_run :
      (m : Machine) (limits : LimitsInfo F) (input expected : Bytes) (r : ExecutionResult)
      (t : TestResult)
      → result_of (execute quota micros what m limits input) ≡ some (ok r)
      → decide r expected ≡ some t
      → judge_run quota micros what m limits input expected ≡ some (ok t)
  unfolding judge_run after_execution
  result-judge_run m limits input expected r t e d = ground arith

  passed :
      (m : Machine) (limits : LimitsInfo F) (input expected : Bytes) (t : TestResult)
      → judge_run quota micros what m limits input expected ≡ some (ok t)
      → t.status ≡ accepted
      → (r : ExecutionResult) × Passed m limits input expected r
  passed m limits input expected t h a =
      let (r, e, d) = judge_run-result m limits input expected h in
      let done = execute-Executed quota micros what m limits input e in
      let deadline = deadline_of quota micros what m limits in
      let monitored_run = done.4 in
      let u = closed_verdict deadline limits.memory_limit_kb m.run expected monitored_run d a in
      let same = accepted_result r expected d a u in
      (
        r,
        (
          done,
          open-EndedWell deadline limits.memory_limit_kb m.run monitored_run u,
          (decide-accepted_iff r expected u).0 (d ∙ ap (λ x. some x) same),
        ),
      )

  passes :
      (m : Machine) (limits : LimitsInfo F) (input expected : Bytes) (r : ExecutionResult)
      → Passed m limits input expected r
      → judge_run quota micros what m limits input expected
        ≡ some (ok (record r.test_result { status = accepted }))
  passes m limits input expected r (done, ended, line) =
      let deadline = deadline_of quota micros what m limits in
      let u = EndedWell-open deadline limits.memory_limit_kb m.run done.4 ended in
      result-judge_run m limits input expected r (record r.test_result { status = accepted })
        (Executed-execute quota micros what m limits input done)
        ((decide-accepted_iff r expected u).1 line)

  -- A test is judged ACCEPTED exactly if `execute` returns, the polling loop was not left by the
  -- deadline, a wait reported the exit code 0, in the loop or after it, or no wait reported a status,
  -- the recorded peak is below the memory limit, and the output is the expected text with a newline
  -- behind it, or the expected text itself where that is not empty and ends with none. The wait
  -- after the loop has no deadline.
  pub judge_run-accepted_iff :
      (m : Machine) (limits : LimitsInfo F) (input expected : Bytes)
      → ((t : TestResult) × (judge_run quota micros what m limits input expected ≡ some (ok t))
          × (t.status ≡ accepted))
        ↔ ((r : ExecutionResult) × Passed m limits input expected r)
  judge_run-accepted_iff m limits input expected = (
    λ (t, h, a). passed m limits input expected t h a,
    λ (r, p).
        (record r.test_result { status = accepted }, passes m limits input expected r p, refl),
  )
