-- ===== src/Tests/Tasks.antt =====
-- The theorems on the judge task (app/src/Application.cpp) and on the handlers (app/src/api) at
-- concrete runs.
use text.Mathlib.Text.{◌==◌ as str_eq}
use oj_backend.Prelude.{ℕ, ◌≡◌, refl, pos, String, true, none, List, [], ◌∷◌, if◌then◌else◌}
use oj_backend.Exceptions.Result.{Error, ok}
use oj_backend.Judge.Status.{TestStatus, TestResult}
use oj_backend.Core.Json.{dump_text}
use oj_backend.Judge.Outcome.{fresh_result}
use oj_backend.App.World.{Server}
use oj_backend.App.Monad.{Act, pure, lift, ◌>>=◌}
use oj_backend.App.JudgeTask.{Workshop, judge_cases, judge_case}
use oj_backend.App.JudgeTask.Verdicts.{IsCut, FirstResults, judge_cases-IsCut}
use oj_backend.App.Api.{Response, handle_http_wrapper, message_body}
use oj_backend.App.Api.Errors.{incomplete, bad_request_answered}
use oj_backend.Tests.Values.{json_lib, json_laws, registration}
use oj_backend.Tests.Values
use oj_backend.Tests.Machine.{World, server, start}
use oj_backend.Tests.Services.{config}

-- A program that solves one of the tests.
abbrev verdict_on : String → TestResult
verdict_on stdin_data = record fresh_result {
  status = if str_eq stdin_data "1 2" then TestStatus.accepted else TestStatus.wrong_answer;
}

abbrev workshop : Workshop ℕ World
workshop = record {
  temp_dir = "/tmp";
  create_directory = λ dir w. (ok true, w);
  write = λ file text w. (ok tt, w);
  remove_all = λ dir w. (ok true, w);
  Judger = Unit {0};
  new_judger = λ lang file limits w. (ok tt, w);
  judge = λ judger stdin_data expected w. (ok (verdict_on stdin_data), w);
}

abbrev test_row : String → Values.Json
test_row stdin_data =
    json_lib.object
      (("stdin_data", Values.str stdin_data) ∷ ("expected_output", Values.str "3") ∷ [])

abbrev three_tests : List Values.Json
three_tests = test_row "1 2" ∷ test_row "2 2" ∷ test_row "1 2" ∷ []

judge_cases-IsCut_example :
    IsCut 3 (verdict_on "1 2" ∷ verdict_on "2 2" ∷ [])
    × FirstResults json_lib server config workshop tt three_tests
        (verdict_on "1 2" ∷ verdict_on "2 2" ∷ [])
unfolding judge_cases judge_case
judge_cases-IsCut_example =
    judge_cases-IsCut json_lib server config workshop tt three_tests start
      {results = verdict_on "1 2" ∷ verdict_on "2 2" ∷ []} refl

abbrev one_test : List Values.Json
one_test = test_row "1 2" ∷ []

abbrev one_result : List TestResult
one_result = verdict_on "1 2" ∷ []

abbrev what : Error → String
what e = "Redis exists error"

abbrev unreached : Values.Json → Act World Response
unreached j w = (ok (record { status = pos 200; body = "" }), w)

bad_request_answered_example :
    (e : Error) × (handle_http_wrapper json_lib server what "registration"
        ("username" ∷ "token" ∷ [])
        unreached
        start
      ≡ (lift (dump_text json_lib (message_body json_lib server what (what e))) >>= λ text.
            pure (record { status = pos 400; body = text }))
          start)
bad_request_answered_example =
    bad_request_answered json_lib server what "registration" ("username" ∷ "token" ∷ []) unreached
      start (incomplete registration refl refl)

-- A Redis server that does not answer.
abbrev silent_server : Server ℕ
silent_server = record server { redis_exists = λ k w. (none, w) }
