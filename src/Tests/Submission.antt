-- ===== src/Tests/Submission.antt =====
-- A submission that is judged by a program which writes "7\n" (app/src/Application.cpp down to
-- judge/src/actuators/Actuator.cpp).
use text.Mathlib.Text.{◌==◌ as str_eq}
use oj_backend.Prelude.{
  ℕ, ◌≡◌, refl, ℤ, pos, Bool, false, some, String, true, List, [], ◌∷◌, if◌then◌else◌,
}
use oj_backend.Exceptions.Result.{ok}
use oj_backend.Core.Enums.{cpp, lang_to_int, language_id_to_string}
use oj_backend.Core.Types.{SubmissionInfo}
use oj_backend.App.World.{Server, Field, Column, ColumnType}
use oj_backend.App.Redis.{set, get, exists}
use oj_backend.App.Monad.{Act}
use oj_backend.Core.Json.{find_key}
use oj_backend.Core.Serial.{submission_to_json}
use oj_backend.App.Services.{created}
use oj_backend.App.Services.Auth.{random_generator}
use oj_backend.App.Services.Submission.{submitting, process_judge_task, querying, status_reply}
use oj_backend.App.Services.Submission.Shown.{after_set, identified, submission_shown}
use oj_backend.App.Messages.{publish_db_operate, serialize, op_to_int}
use oj_backend.Judge.Status.{submission_status_to_string}
use oj_backend.Judge.Monitor.{Bytes}
use oj_backend.Judge.Judger.{Judger}
use oj_backend.Judge.Execution.{Machine}
use oj_backend.App.JudgeTask.{select_test_cases}
use oj_backend.App.JudgeTask.Runs.{Storage}
use oj_backend.Tests.Values.{json_lib, json_laws}
use oj_backend.Tests.Machine.{World, server, redis_laws, start}
use oj_backend.Tests.Services.{config}
use oj_backend.Tests.Execution.{machine}

abbrev bytes : String → Bytes
bytes s = if str_eq s "7" then 55 ∷ [] else 49 ∷ 32 ∷ 50 ∷ []

abbrev storage : Storage World
storage = record {
  temp_dir = "/tmp";
  create_directory = λ dir w. (ok true, w);
  writer = record {
    open_file = λ file w. (ok (pos 5), w);
    stream_descriptor = λ fd w. (ok tt, w);
    async_write = λ fd text w. (ok tt, w);
  };
  remove_all = λ dir w. (ok true, w);
  path = λ file. file ∷ [];
  compile = λ w source output flags. ok (true, "");
}

abbrev machine_of : Judger ℕ → Bytes → World → Machine
machine_of j input w = machine

abbrev same_world : World → World
same_world w = w

abbrev field_of : Bool → ℤ → String → Field ℕ
field_of is_null n s = record {
  is_null = is_null;
  get_boolean = false;
  get_int = n;
  get_int64 = n;
  get_double = 0;
  get_string = s;
}

abbrev text_column : String → String → Column × Field ℕ
text_column name s = (record { name = name; type = ColumnType.other }, field_of false (pos 0) s)

abbrev number_column : String → ℕ → Column × Field ℕ
number_column name n =
    (record { name = name; type = ColumnType.integer }, field_of false (pos n) "")

-- A database with one test of the problem, and its limits.
abbrev rows_of : String → List (List (Column × Field ℕ))
rows_of sql =
    if str_eq sql select_test_cases
    then (text_column "stdin_data" "1 2" ∷ text_column "expected_output" "7" ∷ []) ∷ []
    else (number_column "time_limit_ms" 1000
        ∷ number_column "extra_time_ms" 1000
        ∷ number_column "wall_time_ms" 2000
        ∷ number_column "memory_limit_kb" 1024
        ∷ number_column "stack_limit_kb" 512
        ∷ [])
      ∷ []

abbrev with_problem : Server ℕ
with_problem = record server { execute_query = λ sql bindings w. (some (rows_of sql), w) }

abbrev pub submission : SubmissionInfo
submission = record {
  username = "ann";
  problem_title = "Sum";
  source_code = "int main() {}";
  submission_id = "s1";
  language_id = cpp;
}

-- Ann's submission is queried while the entry is there.
abbrev queues_nothing : SubmissionInfo → Act World (Unit {0})
queues_nothing sub w = (ok tt, w)

abbrev later : World
later = after_set json_lib server config "submission" start

submission_shown_example :
    (json_lib.parse "submission"
      ≡ some (submission_to_json json_lib (identified json_lib server config submission start)))
    × (find_key "submission_id" (
          ("submission_id", json_lib.str "u1")
          ∷ (
            "message",
            json_lib.str "Submission successful, you can check the status on the status panel",
          )
          ∷ [])
        ≡ some (json_lib.str "u1"))
    × ((querying json_lib server config "u1" later).0
        ≡ ok (status_reply json_lib server config (json_lib.str "submission")))
unfolding submitting process_judge_task random_generator publish_db_operate serialize set get exists
    submission_to_json lang_to_int language_id_to_string submission_status_to_string op_to_int
submission_shown_example =
    submission_shown json_lib server config json_laws redis_laws queues_nothing submission start
      later
      {r = record {
        message =
            ("submission_id", json_lib.str "u1")
            ∷ (
              "message",
              json_lib.str "Submission successful, you can check the status on the status panel",
            )
            ∷ [];
        status = created;
      }}
      {text = "submission"} refl refl refl refl {b = true} {o = some "submission"} refl refl
