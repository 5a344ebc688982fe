-- ===== src/App/JudgeTask.antt =====
-- The task that Application::processJudgeTask (app/src/Application.cpp) queues: it reads the test
-- cases and the limits, judges until a test is not accepted, and publishes the verdicts.
pub mod Verdicts
pub mod Runs
pub mod Stored
pub mod Ordered
use Prim.Native.String.{◌++◌}
use oj_backend.Prelude.{
  ℕ, ◌+◌, ◌/◌, ◌%◌, u32_mod, pos, String, Bool, true, false, not, Option, none, some, List, [], ◌∷◌,
  map, to_string, if◌then◌else◌,
}
use oj_backend.Exceptions.Result.{Result, Error, FileError, ok, err}
use oj_backend.Core.Enums.{LangId, get_file_extension, language_id_to_string}
use oj_backend.Core.Types.{LimitsInfo, SubmissionInfo}
use oj_backend.Core.Json.{JsonLib, at_string, at_uint}
use oj_backend.Judge.Status.{
  TestStatus, TestResult, test_status_to_string, submission_status_to_string, set_status, accepted,
}
use oj_backend.App.World.{Server}
use oj_backend.App.Monad.{Act, pure, throw, lift, catching, ◌>>=◌}
use oj_backend.App.Redis.{set}
use oj_backend.App.Operations.{query_db, insert, update}
use oj_backend.App.Messages.{DbOperateMessage, publish_db_operate}
use oj_backend.App.Services.{Config}
use oj_backend.App.Services.Auth.{front}

abbrev pub select_test_cases : String
select_test_cases =
    "SELECT * FROM test_cases tc JOIN problems p ON tc.problem_id = p.id WHERE p.title = ? ORDER BY tc.sequence ASC;"

abbrev pub select_limits : String
select_limits =
    "SELECT * FROM problem_limits pl JOIN problems p ON pl.problem_id = p.id WHERE p.title = ? AND pl.language = ? LIMIT 1;"

abbrev pub insert_result : String
insert_result =
    "INSERT INTO judge_results (submission_id, test_case_id, status, cpu_time_ms, memory_kb, exit_code, signal_code) \nVALUES ((SELECT id FROM submissions WHERE sub_uuid = ?),\n        (SELECT id FROM test_cases WHERE problem_id = (SELECT id FROM problems WHERE title = ?) AND sequence = ?),\n        ?, ?, ?, ?, ?);"

abbrev pub update_status : String
update_status = "UPDATE submissions SET overall_status = ? WHERE sub_uuid = ?;"

-- What the task uses of the file system and of a judger (judge/src/Judger.cpp).
pub record Workshop (F : Type 0) (World : Type 0) : Type 1 where
  pub temp_dir : String
  pub create_directory : String → Act World Bool
  pub write : String → String → Act World (Unit {0})
  pub remove_all : String → Act World Bool
  pub Judger : Type 0
  pub new_judger : LangId → String → LimitsInfo F → Act World Judger
  pub judge : Judger → String → String → Act World TestResult

abbrev pub is_accepted : TestStatus → Bool
is_accepted accepted = true
is_accepted _ = false

module _ {F : Type 0} (J : JsonLib F) (S : Server F) (cfg : Config) (W : Workshop F S.World) where
  -- The members of the row that `limit` holds.
  unfoldable pub read_limits : J.Json → Act S.World (LimitsInfo F)
  read_limits limit = do
    time_limit ← lift (at_uint J limit "time_limit_ms")
    extra_time ← lift (at_uint J limit "extra_time_ms")
    wall_time ← lift (at_uint J limit "wall_time_ms")
    memory_limit_kb ← lift (at_uint J limit "memory_limit_kb")
    stack_limit_kb ← lift (at_uint J limit "stack_limit_kb")
    pure (record {
      time_limit_s = S.from_ms time_limit;
      extra_time_s = S.from_ms extra_time;
      wall_time_s = S.from_ms wall_time;
      memory_limit_kb = memory_limit_kb;
      stack_limit_kb = stack_limit_kb;
    })

  -- One turn of the loop, up to the result.
  unfoldable pub judge_case : W.Judger → J.Json → Act S.World TestResult
  judge_case judger tc = do
    stdin_data ← lift (at_string J tc "stdin_data")
    expected_output ← lift (at_string J tc "expected_output")
    W.judge judger stdin_data expected_output

  -- The loop over the test cases; it stops at the first result that is not ACCEPTED.
  unfoldable pub judge_cases : W.Judger → List J.Json → Act S.World (List TestResult)
  judge_cases judger [] = pure []
  judge_cases judger (tc ∷ rest) = do
    result ← judge_case judger tc
    if is_accepted result.status
        then (do more ← judge_cases judger rest; pure (result ∷ more))
        else pure (result ∷ [])

  -- The message about test `idx`.
  unfoldable pub result_message : SubmissionInfo → ℕ → TestResult → DbOperateMessage J
  result_message sub idx r = record {
    op_type = insert;
    sql = insert_result;
    data_key = sub.submission_id ++ to_string idx;
    param_array = J.array (
        J.str sub.submission_id
        ∷ J.str sub.problem_title
        ∷ J.unsigned idx
        ∷ J.str (test_status_to_string r.status)
        ∷ J.unsigned (r.duration_us / 1000 % u32_mod)
        ∷ J.integer r.memory_kb
        ∷ J.integer r.exit_code
        ∷ J.integer r.signal
        ∷ []);
  }

  -- `msgs`, from test `idx` on
  unfoldable pub result_messages : SubmissionInfo → ℕ → List TestResult → List (DbOperateMessage J)
  result_messages sub idx [] = []
  result_messages sub idx (r ∷ rest) = result_message sub idx r ∷ result_messages sub (idx + 1) rest

  unfoldable pub status_message : SubmissionInfo → List TestResult → DbOperateMessage J
  status_message sub results = record {
    op_type = update;
    sql = update_status;
    data_key = sub.submission_id ++ "_overall_status";
    param_array = J.array (
        J.str (submission_status_to_string (set_status (map (λ r. r.status) results)))
        ∷ J.str sub.submission_id
        ∷ []);
  }

  unfoldable pub publish_all : List (DbOperateMessage J) → Act S.World (Unit {0})
  publish_all [] = pure tt
  publish_all (m ∷ rest) = do _ ← publish_db_operate J S cfg.operate_channel m; publish_all rest

  -- After the loop.
  unfoldable pub report : SubmissionInfo → String → List TestResult → Act S.World (Unit {0})
  unfolding result_messages result_message status_message publish_all
  report sub code_dir results = do
    _ ← publish_db_operate J S cfg.operate_channel (status_message sub results)
    _ ← publish_all (result_messages sub 1 results)
    _ ← W.remove_all code_dir
    _ ← set S ("submission_tmp_" ++ sub.submission_id) "COMPLETE" cfg.key_ttl
    pure tt

  -- The body of the `try`, once the directory is there.
  unfoldable pub judging : SubmissionInfo → String → Act S.World (Unit {0})
  unfolding read_limits
  judging sub code_dir = do
    let code_file = code_dir ++ "/main" ++ get_file_extension sub.language_id
    _ ← W.write code_file sub.source_code
    tcs ← query_db J S select_test_cases (J.str sub.problem_title ∷ [])
    rows ←
        query_db J S select_limits
          (J.str sub.problem_title ∷ J.str (language_id_to_string sub.language_id) ∷ [])
    limit ← lift (front J S cfg rows)
    lm_info ← read_limits limit
    judger ← W.new_judger sub.language_id code_file lm_info
    results ← judge_cases judger tcs
    report sub code_dir results

  unfoldable pub judge_task_body : SubmissionInfo → Act S.World (Unit {0})
  unfolding judging
  judge_task_body sub = do
    let code_dir = W.temp_dir ++ "/" ++ sub.submission_id
    made ← W.create_directory code_dir
    if not made
        then throw (
            Error.file FileError.write_error code_dir "fiailed create temp dir to save code"
              (pos 0))
        else judging sub code_dir

  -- The task; every exception is caught.
  unfoldable pub judge_task : SubmissionInfo → Act S.World (Unit {0})
  unfolding judge_task_body
  judge_task sub = catching (judge_task_body sub) (λ _. tt)
