-- ===== src/Tests/Reporting.antt =====
-- What the judge task publishes (app/src/Application.cpp) at a submission with one accepted test.
use oj_backend.Prelude.{
  decimal, ◌++◌, ◌*◌, ◌/◌, none, ℕ, ◌≡◌, refl, pos, false, some, String, true, List, [], ◌∷◌,
}
use oj_backend.Exceptions.Result.{ok}
use oj_backend.Core.Types.{SubmissionInfo}
use oj_backend.App.World.{Server}
use oj_backend.App.Redis.{set}
use oj_backend.App.Messages.{DbOperateMessage, publish_db_operate, serialize, op_to_int}
use oj_backend.App.JudgeTask.Ordered.{IsVerdict, AreResults, AreTexts, report_published}
use oj_backend.Judge.Outcome.{fresh_result}
use oj_backend.Judge.Status.{TestResult, accepted}
use oj_backend.Tests.Execution.{quick_result}
use oj_backend.Judge.Status.{
  set_status, submission_status_to_string, test_status_to_string, mask, fold_statuses, add_status,
  decode_statuses,
}
use oj_backend.App.JudgeTask.{Workshop, report}
use oj_backend.Tests.Values.{json_lib}
use oj_backend.Tests.Services.{config}
use oj_backend.Tests.Submission.{submission}

-- A Redis that keeps what was published.
abbrev logging_server : Server ℕ
logging_server = record {
  World = List String;
  redis_set = λ k v ttl w. (some true, w);
  redis_get = λ k w. (some none, w);
  redis_del = λ k w. (some 0, w);
  redis_exists = λ k w. (some false, w);
  redis_expire = λ k ttl w. (some true, w);
  redis_publish = λ c m w. (some tt, w ++ m ∷ []);
  execute_query = λ sql b w. (some [], w);
  execute_statement = λ sql b w. (some tt, w);
  jwt_sign = λ secret c. none;
  jwt_decode = λ t. none;
  jwt_verify = λ secret iss t now. false;
  pwhash = λ p w. (some p, w);
  pwhash_verify = λ h p. false;
  random_uuid = λ w. ("u1", w);
  clock = λ w. 0;
  stod = λ s. none;
  to_ms = λ x. x * 1000;
  from_ms = λ n. n / 1000;
  errno = λ w. pos 5;
  value = λ w k. none;
}

abbrev logging_workshop : Workshop ℕ (List String)
logging_workshop = record {
  temp_dir = "/tmp";
  create_directory = λ dir w. (ok true, w);
  write = λ file text w. (ok tt, w);
  remove_all = λ dir w. (ok true, w);
  Judger = Unit {0};
  new_judger = λ lang file limits w. (ok tt, w);
  judge = λ judger stdin_data expected w. (ok fresh_result, w);
}

abbrev judged_submission : SubmissionInfo
judged_submission = record submission { submission_id = "s1" }

abbrev one_accepted : List TestResult
one_accepted = record quick_result.test_result { status = accepted } ∷ []

set_keeps : (k v : String) (ttl : ℕ) (w : List String) → (set logging_server k v ttl w).1 ≡ w
unfolding set
set_keeps k v ttl w = refl

report_published_example :
    (verdict : DbOperateMessage json_lib) × (ms : List (DbOperateMessage json_lib)) × (texts : List
      String)
    × IsVerdict json_lib judged_submission one_accepted verdict
    × AreResults json_lib judged_submission 1 one_accepted ms
    × AreTexts json_lib (verdict ∷ ms) texts
    × ((report json_lib logging_server config logging_workshop judged_submission "/tmp/s1"
          one_accepted
          ("old" ∷ [])).1
        ≡ ("old" ∷ []) ++ texts)
unfolding report publish_db_operate serialize submission_status_to_string set_status decode_statuses
    fold_statuses add_status mask op_to_int decimal test_status_to_string set
report_published_example =
    report_published json_lib logging_server config logging_workshop (λ w. w) (λ c t w h. refl)
      set_keeps (λ dir w. refl) judged_submission "/tmp/s1" one_accepted ("old" ∷ []) refl
