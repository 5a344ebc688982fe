-- ===== src/App/JudgeTask/Stored.antt =====
-- From the judge task to the status that the subscriber stores (both app/src/Application.cpp).
use Prim.Native.String.{◌++◌}
use oj_backend.Prelude.{ℕ, ◌≡◌, String, List, [], ◌∷◌, map}
use oj_backend.Exceptions.Result.{Error, ok}
use oj_backend.Core.Types.{SubmissionInfo, LimitsInfo}
use oj_backend.Core.Enums.{get_file_extension}
use oj_backend.Core.FileWriter.{write_file}
use oj_backend.Core.Json.{JsonLib}
use oj_backend.Judge.Status.{TestResult, set_status, submission_status_to_string}
use oj_backend.Judge.Monitor.{Bytes}
use oj_backend.Judge.Judger.{Judger, make_judger}
use oj_backend.Judge.Execution.{Machine}
use oj_backend.App.World.{Server, Binding}
use oj_backend.App.Operations.{query_db}
use oj_backend.App.Messages.Sent.{Sent}
use oj_backend.App.Services.{Config}
use oj_backend.App.JudgeTask.{Workshop, judge_cases, status_message, select_test_cases}
use oj_backend.App.JudgeTask.Runs.{Storage, the_workshop}

abbrev pub code_file : SubmissionInfo → String → String
code_file sub dir = dir ++ "/main" ++ get_file_extension sub.language_id

-- The text of the verdict, and what is bound for it.
abbrev pub verdict_text : List TestResult → String
verdict_text results = submission_status_to_string (set_status (map (λ r. r.status) results))

abbrev pub verdict_values : {F : Type 0} → SubmissionInfo → List TestResult → List (Binding F)
verdict_values sub results =
    Binding.set_string (verdict_text results) ∷ Binding.set_string sub.submission_id ∷ []

module _ {F : Type 0} (J : JsonLib F) (S : Server F) (cfg : Config) (quota : F → F → ℕ)
    (micros : F → ℕ) (what : Error → String) (bytes : String → Bytes)
    (machine : Judger F → Bytes → S.World → Machine) (after : S.World → S.World)
    (storage : Storage S.World) where
  abbrev shop : Workshop F S.World
  shop = the_workshop J S cfg quota micros what bytes machine after storage

  -- What a task that came to its end has done: it has started the write of the source to its file,
  -- made a judger of this file, judged the test cases that the database has for the problem, and
  -- sent the verdict on the results.
  pub record Judged (sub : SubmissionInfo) (dir : String) : Type 0 where
    pub writing : S.World
    pub written : (write_file storage.writer (code_file sub dir) sub.source_code writing).0 ≡ ok tt
    pub tcs : List J.Json
    pub asking : S.World
    pub asked : (query_db J S select_test_cases (J.str sub.problem_title ∷ []) asking).0 ≡ ok tcs
    pub judger : Judger F
    pub limits : LimitsInfo F
    pub making : S.World
    pub made :
        make_judger
          (storage.compile making)
          sub.language_id
          (storage.path (code_file sub dir))
          limits
        ≡ ok judger
    pub results : List TestResult
    pub start : S.World
    pub judged : (judge_cases J S cfg shop judger tcs start).0 ≡ ok results
    pub sending : S.World
    pub sent : Sent J S cfg (status_message J S cfg shop sub results) sending
