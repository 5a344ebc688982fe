-- ===== src/Judge/Report.antt =====
-- JudgeResult of judge/include/utilities/JudgeResult.hpp with its text, and the text of a
-- TestResult (judge/src/utilities). No string has a null character.
use Prim.Native.String.{◌++◌}
use oj_backend.Prelude.{String, to_string, int_to_string, List, [], ◌∷◌, map}
use oj_backend.Core.Enums.{LangId}
use oj_backend.Judge.Status.{
  TestResult, test_status_to_string, SubmissionStatus, submission_status_to_string, set_status,
}

pub record JudgeResult : Type 0 where
  pub problem_title : String
  pub compile_msg : String
  pub results : List TestResult
  pub sub_id : String
  pub language_id : LangId
  pub status : SubmissionStatus

-- JudgeResult::JudgeResult
unfoldable pub make_judge_result : String → String → LangId → JudgeResult
make_judge_result title sid lang_id = record {
  problem_title = title;
  compile_msg = "";
  results = [];
  sub_id = sid;
  language_id = lang_id;
  status = SubmissionStatus.unknown;
}

-- JudgeResult::setStatus
unfoldable pub set_result_status : JudgeResult → JudgeResult
unfolding set_status
set_result_status j = record j { status = set_status (map (λ r. r.status) j.results) }

-- TestResult::toString
unfoldable pub test_result_text : TestResult → String
unfolding test_status_to_string
test_result_text r =
    "[\n  Status: "
    ++ test_status_to_string r.status
    ++ "\n  Runtime: "
    ++ to_string r.duration_us
    ++ " us\n  Memory: "
    ++ int_to_string r.memory_kb
    ++ " KB\n  Exit Code: "
    ++ int_to_string r.exit_code
    ++ "\n  Exit Signal: "
    ++ int_to_string r.signal
    ++ "\n]\n"

unfoldable pub results_text : List TestResult → String
unfolding test_result_text
results_text [] = ""
results_text (r ∷ rest) = test_result_text r ++ "\n" ++ results_text rest

-- JudgeResult::toString
unfoldable pub judge_result_text : JudgeResult → String
unfolding submission_status_to_string results_text
judge_result_text j =
    "Problem: "
    ++ j.problem_title
    ++ "\nSubmissionId: "
    ++ j.sub_id
    ++ "\nStatus: "
    ++ submission_status_to_string j.status
    ++ "\nCompile Message: "
    ++ j.compile_msg
    ++ "\nTestResults: "
    ++ results_text j.results
