-- ===== src/App/Services/Submission.antt =====
-- app/src/services/SubmissionService.cpp, and the part of Application::processJudgeTask
-- (app/src/Application.cpp) that runs before the task is queued.
pub mod Shown
use Prim.Native.String.{◌++◌}
use oj_backend.Prelude.{String, Option, none, some, List, [], ◌∷◌, if◌then◌else◌}
use oj_backend.Core.Enums.{language_id_to_string}
use oj_backend.Core.Types.{SubmissionInfo}
use oj_backend.Core.Json.{JsonLib, dump_text}
use oj_backend.Core.Serial.{submission_to_json}
use oj_backend.Judge.Status.{submission_status_to_string, pending}
use oj_backend.App.World.{Server}
use oj_backend.App.Monad.{Act, pure, lift, ◌>>=◌}
use oj_backend.App.Redis.{set, get, exists}
use oj_backend.App.Operations.{query_db, insert}
use oj_backend.App.Messages.{DbOperateMessage, publish_db_operate}
use oj_backend.App.Services.{Config, ServiceInfo, reply, authenticate, http_ok, created, not_found}
use oj_backend.App.Services.Auth.{random_generator}
use oj_backend.App.Services.Problem.{authenticated}

abbrev pub insert_submission : String
insert_submission =
    "INSERT INTO submissions (sub_uuid, user_id, problem_id, language, code, overall_status) \nVALUES (?, (SELECT id FROM users WHERE username = ? LIMIT 1), (SELECT id FROM problems WHERE title = ? LIMIT 1), ?, ?, ?);"

abbrev select_status : String
select_status = "SELECT overall_status FROM submissions WHERE submission_id = ? LIMIT 1;"

module _ {F : Type 0} (J : JsonLib F) (S : Server F) (cfg : Config) where
  pending_message : SubmissionInfo → DbOperateMessage J
  pending_message info = record {
    op_type = insert;
    sql = insert_submission;
    data_key = info.submission_id;
    param_array = J.array (
        J.str info.submission_id
        ∷ J.str info.username
        ∷ J.str info.problem_title
        ∷ J.str (language_id_to_string info.language_id)
        ∷ J.str info.source_code
        ∷ J.str (submission_status_to_string pending)
        ∷ []);
  }

  -- Application::processJudgeTask; `enqueue` queues the task on the pool of the judgers.
  unfoldable pub process_judge_task :
      (SubmissionInfo → Act S.World (Unit {0})) → SubmissionInfo → Act S.World (Unit {0})
  unfolding pending_message
  process_judge_task enqueue info = do
    _ ← publish_db_operate J S cfg.operate_channel (pending_message info)
    enqueue info

  unfoldable pub submitting :
      (SubmissionInfo → Act S.World (Unit {0})) → SubmissionInfo → Act S.World (ServiceInfo J)
  unfolding process_judge_task
  submitting enqueue info = do
    uuid ← random_generator J S
    let sub = record info { submission_id = uuid }
    text ← lift (dump_text J (submission_to_json J sub))
    _ ← set S (cfg.submission_prefix ++ uuid) text cfg.key_ttl
    _ ← process_judge_task enqueue sub
    pure (record {
      message =
          ("submission_id", J.str uuid)
          ∷ ("message", J.str "Submission successful, you can check the status on the status panel")
          ∷ [];
      status = created;
    })

  -- SubmissionService::submit
  unfoldable pub submit :
      (SubmissionInfo → Act S.World (Unit {0}))
      → SubmissionInfo
      → String
      → Act S.World (ServiceInfo J)
  unfolding submitting
  submit enqueue info token = do
    user ← authenticate J S cfg token
    authenticated J S cfg (submitting enqueue info) user

  -- An optional text as JSON.
  abbrev optional_text : Option String → J.Json
  optional_text none = J.null
  optional_text (some text) = J.str text

  abbrev pub status_reply : J.Json → ServiceInfo J
  status_reply status = record {
    message = ("message", J.str "query succeed") ∷ ("submission_status", status) ∷ [];
    status = http_ok;
  }

  -- result[0]["overall_status"]; a row without the field gets a null one.
  abbrev status_of_rows : List J.Json → ServiceInfo J
  status_of_rows [] = reply J not_found "query failed"
  status_of_rows (row ∷ rest) = elim (J.find row "overall_status") [
    | none ↦ status_reply J.null
    | some status ↦ status_reply status
  ]

  unfoldable pub querying : String → Act S.World (ServiceInfo J)
  querying submission_id = do
    cached ← exists S (cfg.submission_prefix ++ submission_id)
    if cached
        then (do
          text ← get S (cfg.submission_prefix ++ submission_id)
          pure (status_reply (optional_text text)))
        else (do
          rows ← query_db J S select_status (J.str submission_id ∷ [])
          pure (status_of_rows rows))

  -- SubmissionService::querySubmission
  unfoldable pub query_submission : String → String → Act S.World (ServiceInfo J)
  unfolding querying
  query_submission submission_id token = do
    user ← authenticate J S cfg token
    authenticated J S cfg (querying submission_id) user
