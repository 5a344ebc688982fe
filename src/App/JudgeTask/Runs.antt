-- ===== src/App/JudgeTask/Runs.antt =====
-- The judge task (app/src/Application.cpp) with the judger of judge/src/Judger.cpp and the actuator
-- of judge/src/actuators/Actuator.cpp behind it: from a stored verdict to the runs of the program.
use oj_backend.Prelude.{
  ℕ, ◌≡◌, ◌≢◌, sym, ◌∙◌, ap, String, Bool, true, false, not, ◌&&◌, Option, none, some, List, [],
  ◌∷◌, map, All, arith, inl, inr, Bool-cases, if◌then◌else◌,
}
use oj_backend.Exceptions.Result.{Result, Error, ok, err}
use oj_backend.Core.FileWriter.{WriterCalls, write_file}
use oj_backend.Core.Json.{JsonLib, at_string}
use oj_backend.Judge.Status.{TestStatus, TestResult, accepted, compilation_error, ac, set_status}
use oj_backend.Judge.Monitor.{Bytes, ExecutionResult}
use oj_backend.Judge.Outcome.{fresh_result}
use oj_backend.Judge.Judger.{Judger, FilePath, Compile, make_judger, get_compile_error, is_some}
use oj_backend.Judge.Execution.{Machine, judge_run}
use oj_backend.Judge.Execution.Accepted.{Passed, judge_run-accepted_iff}
use oj_backend.App.World.{Server}
use oj_backend.App.Monad.{Act, pure, lift, ◌>>=◌}
use oj_backend.App.Monad.Inversion.{>>=-eq-ok, allowed, not_refused}
use oj_backend.App.Services.{Config}
use oj_backend.App.JudgeTask.{Workshop, is_accepted, judge_case, judge_cases}
use oj_backend.App.JudgeTask.Verdicts.{all_accepted, accepted_submission}

-- The files of the server, and its compiler.
pub record Storage (World : Type 0) : Type 0 where
  pub temp_dir : String
  pub create_directory : String → Act World Bool
  pub writer : WriterCalls World
  pub remove_all : String → Act World Bool
  pub path : String → FilePath
  pub compile : World → Compile

abbrev outcome : Option (Result TestResult) → Result TestResult
outcome none = err (Error.undefined "the run does not end, or wrote nothing")
outcome (some r) = r

is_accepted-eq : (s : TestStatus) → is_accepted s ≡ true → s ≡ accepted
is_accepted-eq s h = ground arith

ran :
    (refused : Bool) (o : Option (Result TestResult)) {t : TestResult}
    → (if refused then ok (record fresh_result { status = compilation_error }) else outcome o)
      ≡ ok t
    → is_accepted t.status ≡ true
    → o ≡ some (ok t)
ran true o h a = absurd (ground arith)
ran false none h a = cc
ran false (some r) h a = ap (λ x. some x) h

-- `bytes` is what a std::string holds; `machine` is what the system answers to a run of a judger on
-- an input, and `after` the world after it.
module _ {F World : Type 0} (quota : F → F → ℕ) (micros : F → ℕ) (what : Error → String)
    (bytes : String → Bytes) (machine : Judger F → Bytes → World → Machine)
    (after : World → World) where
  -- Judger::judge, with Actuator::execute.
  unfoldable pub run_judger : Judger F → String → String → Act World TestResult
  run_judger j stdin_data expected w = (
    if not j.has_compiler && is_some (get_compile_error j)
        then ok (record fresh_result { status = compilation_error })
        else outcome (
            judge_run quota micros what (machine j (bytes stdin_data) w) j.limits (bytes stdin_data)
              (bytes expected)),
    after w,
  )

  -- What the task works with.
  abbrev pub real_workshop : Storage World → Workshop F World
  real_workshop s = record {
    temp_dir = s.temp_dir;
    create_directory = s.create_directory;
    write = write_file s.writer;
    remove_all = s.remove_all;
    Judger = Judger F;
    new_judger = λ lang file limits w. (make_judger (s.compile w) lang (s.path file) limits, w);
    judge = run_judger;
  }

  -- In some world the program has passed a test.
  abbrev pub HasPassed : Judger F → String → String → Type 0
  HasPassed j stdin_data expected =
      (w : World) × (r : ExecutionResult) × Passed quota micros what
        (machine j (bytes stdin_data) w) j.limits (bytes stdin_data) (bytes expected) r

  run_judger-HasPassed :
      (j : Judger F) (stdin_data expected : String) (w : World) {t : TestResult}
      → (run_judger j stdin_data expected w).0 ≡ ok t
      → is_accepted t.status ≡ true
      → HasPassed j stdin_data expected
  unfolding run_judger
  run_judger-HasPassed j stdin_data expected w {t} h a =
      let input = bytes stdin_data in
      let m = machine j input w in
      let refused = not j.has_compiler && is_some (get_compile_error j) in
      let run = judge_run quota micros what m j.limits input (bytes expected) in
      let done = ran refused run h a in
      let (r, passed) =
        (judge_run-accepted_iff quota micros what m j.limits input (bytes expected)).0
          (t, done, is_accepted-eq t.status a) in
      (w, r, passed)

module _ {F : Type 0} (J : JsonLib F) (S : Server F) (cfg : Config) (quota : F → F → ℕ)
    (micros : F → ℕ) (what : Error → String) (bytes : String → Bytes)
    (machine : Judger F → Bytes → S.World → Machine) (after : S.World → S.World)
    (storage : Storage S.World) where
  abbrev pub the_workshop : Workshop F S.World
  the_workshop = real_workshop quota micros what bytes machine after storage

  -- The program has passed the test of a row.
  abbrev pub CasePassed : Judger F → J.Json → Type 0
  CasePassed j tc =
      (stdin_data : String) × (expected : String) × (at_string J tc "stdin_data" ≡ ok stdin_data)
      × (at_string J tc "expected_output" ≡ ok expected)
      × HasPassed quota micros what bytes machine after j stdin_data expected

  judge_case-CasePassed :
      (j : Judger F) (tc : J.Json) (w : S.World) {t : TestResult}
      → (judge_case J S cfg the_workshop j tc w).0 ≡ ok t
      → is_accepted t.status ≡ true
      → CasePassed j tc
  unfolding judge_case
  judge_case-CasePassed j tc w h a =
      let (stdin_data, e1, h1) = >>=-eq-ok (lift (at_string J tc "stdin_data")) _ w h in
      let (expected, e2, h2) = >>=-eq-ok (lift (at_string J tc "expected_output")) _ w h1 in
      (
        stdin_data,
        expected,
        e1,
        e2,
        run_judger-HasPassed quota micros what bytes machine after j stdin_data expected w h2 a,
      )

  judge_cases-CasePassed :
      (j : Judger F) (tcs : List J.Json) (w : S.World) {results : List TestResult}
      → (judge_cases J S cfg the_workshop j tcs w).0 ≡ ok results
      → all_accepted results ≡ true
      → All (CasePassed j) tcs
  unfolding judge_cases
  judge_cases-CasePassed j [] w h a = tt
  judge_cases-CasePassed j (tc ∷ rest) w {results} h a =
      let more_of = judge_cases J S cfg the_workshop j rest in
      let next : TestResult → Act S.World (List TestResult) = λ r.
        if is_accepted r.status then (more_of >>= λ more. pure (r ∷ more)) else pure (r ∷ []) in
      let (r, c, h1) = >>=-eq-ok (judge_case J S cfg the_workshop j tc) next w h in
      let w1 = (judge_case J S cfg the_workshop j tc w).1 in
      elim (Bool-cases (is_accepted r.status)) [
        | inl e ↦
            let h2 =
              ap (λ r. r.0) (sym (allowed (is_accepted r.status) _ (pure (r ∷ [])) w1 e)) ∙ h1 in
            let (more, b, k) = >>=-eq-ok more_of (λ more. pure (r ∷ more)) w1 h2 in
            let q : r ∷ more ≡ results = ground (arith, k) in
            (
              judge_case-CasePassed j tc w c e,
              judge_cases-CasePassed j rest w1 b (ground (arith, ap all_accepted q, a, e)),
            )
        | inr e ↦
            let h2 =
              ap (λ r. r.0)
                (sym (
                  not_refused (is_accepted r.status) (more_of >>= λ more. pure (r ∷ more))
                    (pure (r ∷ [])) w1 e))
              ∙ h1 in
            let q : r ∷ [] ≡ results = ground (arith, h2) in
            absurd (ground (arith, ap all_accepted q, a, e))
      ]

  -- A submission whose stored status becomes ACCEPT has test cases, and its program has passed every
  -- one of them: in some run on the input of the test, in a control group that was set up and removed,
  -- the polling loop was not left by the deadline, the exit code was 0, or no wait reported a status,
  -- the recorded peak was below the memory limit, and the output was the expected one.
  pub accepted_submission-Passed :
      (j : Judger F) (tcs : List J.Json) (w : S.World) {results : List TestResult}
      → (judge_cases J S cfg the_workshop j tcs w).0 ≡ ok results
      → set_status (map (λ r. r.status) results) ≡ ac
      → (tcs ≢ []) × All (CasePassed j) tcs
  accepted_submission-Passed j tcs w h s =
      let (some_case, _, good) = accepted_submission J S cfg the_workshop j tcs w h s in
      (some_case, judge_cases-CasePassed j tcs w h good)
