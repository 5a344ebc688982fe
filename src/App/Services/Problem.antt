-- ===== src/App/Services/Problem.antt =====
-- app/src/services/ProblemService.cpp: problems, their limits and their test cases.
pub mod Listing
use Prim.Native.String.{◌++◌}
use oj_backend.Prelude.{
  String, not, Option, none, some, List, [], ◌∷◌, length, to_string, if◌then◌else◌,
}
use oj_backend.Exceptions.Result.{Result, ok, err}
use oj_backend.Core.Enums.{difficulty_to_string, language_id_to_string}
use oj_backend.Core.Types.{UserInfo, ProblemInfo, ProblemLimitsInfo, TestCaseInfo}
use oj_backend.Core.Json.{JsonLib, dump_text, at_string}
use oj_backend.App.World.{Server}
use oj_backend.App.Monad.{Act, pure, lift, ◌>>=◌}
use oj_backend.App.Redis.{set, exists, expire}
use oj_backend.App.Operations.{query_db, insert}
use oj_backend.App.Messages.{publish_db_operate}
use oj_backend.App.Services.{
  Config, ServiceInfo, reply, create_auth_failed_resp, authenticate, http_ok, created, unauthorized,
  conflict, internal_server_error,
}
use oj_backend.App.Services.Auth.{is_nil}

abbrev select_problem : String
select_problem = "SELECT * FROM problems p WHERE p.title = ? LIMIT 1;"

abbrev pub select_problems : String
select_problems = "SELECT * FROM problems"

abbrev insert_problem : String
insert_problem =
    "INSERT INTO problems (title,difficulty,description,author_id) \nVALUES (?, ?, ?, (SELECT id FROM users WHERE username = ? LIMIT 1))\nON DUPLICATE KEY UPDATE;"

abbrev insert_limits : String
insert_limits =
    "\nINSERT INTO problem_limits (problem_id,language,time_limit_ms,extra_time_ms,wall_time_ms,memory_limit_kb,stack_limit_kb)\nVALUES ((SELECT id FROM problems WHERE title = ? LIMIT 1),?,?,?,?,?,?)\nON DUPLICATE KEY UPDATE\n    time_limit_ms = VALUES(time_limit_ms),\n    extra_time_ms = VALUES(extra_time_ms),\n    wall_time_ms = VALUES(wall_time_ms),\n    memory_limit_kb = VALUES(memory_limit_kb),\n    stack_limit_kb = VALUES(stack_limit_kb);"

abbrev insert_test_case : String
insert_test_case =
    "\nINSERT INTO test_cases (problem_id,stdin_data,expected_output,sequence)\nVALUES ((SELECT id FROM problems WHERE title = ? LIMIT 1),?,?,?)\nON DUPLICATE KEY UPDATE\n    stdin_data = VALUES(stdin_data)\n    expected_output = VALUES(expected_output);"

module _ {F : Type 0} (J : JsonLib F) (S : Server F) (cfg : Config) where
  -- App.getRedisManager().set(data_key, param_array.dump()), and publishDbOperate of an insertion
  unfoldable pub store_and_publish : String → String → J.Json → Act S.World (Unit {0})
  store_and_publish sql data_key params = do
    text ← lift (dump_text J params)
    _ ← set S data_key text cfg.key_ttl
    publish_db_operate J S cfg.operate_channel
        (record { op_type = insert; sql = sql; data_key = data_key; param_array = params })

  -- What runs for a user; without one the reply is that of a failed authentication.
  abbrev pub authenticated :
      Act S.World (ServiceInfo J) → Option UserInfo → Act S.World (ServiceInfo J)
  authenticated rest none = pure (create_auth_failed_resp J)
  authenticated rest (some user) = rest

  abbrev problem_params : ProblemInfo → J.Json
  problem_params info = J.array (
      J.str info.title
      ∷ J.str (difficulty_to_string info.difficulty)
      ∷ J.str info.description
      ∷ J.str info.username
      ∷ [])

  -- ProblemService::createProblem, for a user
  unfoldable pub creating_problem : ProblemInfo → Act S.World (ServiceInfo J)
  unfolding store_and_publish
  creating_problem info = do
    rows ← query_db J S select_problem (J.str info.title ∷ [])
    if not (is_nil rows) then pure (reply J conflict "Problems's title is used.") else (do
      _ ← store_and_publish insert_problem (cfg.problem_prefix ++ info.title) (problem_params info)
      pure (reply J created "Create problems successfully"))

  -- ProblemService::createProblem
  unfoldable pub create_problem : ProblemInfo → String → Act S.World (ServiceInfo J)
  unfolding creating_problem
  create_problem info token = do
    user ← authenticate J S cfg token
    authenticated (creating_problem info) user

  abbrev limit_params : ProblemLimitsInfo F → J.Json
  limit_params info = J.array (
      J.str info.problem_title
      ∷ J.str (language_id_to_string info.language_id)
      ∷ J.unsigned (S.to_ms info.time_limit_s)
      ∷ J.unsigned (S.to_ms info.extra_time_s)
      ∷ J.unsigned (S.to_ms info.wall_time_s)
      ∷ J.unsigned info.memory_limit_kb
      ∷ J.unsigned info.stack_limit_kb
      ∷ [])

  unfoldable pub adding_limit : ProblemLimitsInfo F → Act S.World (ServiceInfo J)
  unfolding store_and_publish
  adding_limit info = do
    _ ← store_and_publish insert_limits (cfg.limit_prefix ++ info.problem_title) (limit_params info)
    pure (reply J created "Create problem limits successfully")

  -- ProblemService::addProblemLimit
  unfoldable pub add_problem_limit : ProblemLimitsInfo F → String → Act S.World (ServiceInfo J)
  unfolding adding_limit
  add_problem_limit info token = do
    user ← authenticate J S cfg token
    authenticated (adding_limit info) user

  unfoldable pub uploading : TestCaseInfo → Act S.World (ServiceInfo J)
  uploading info = do
    _ ← publish_db_operate J S cfg.operate_channel (record {
      op_type = insert;
      sql = insert_test_case;
      data_key = info.problem_title ++ to_string info.sequence;
      param_array = J.array (
          J.str info.problem_title
          ∷ J.str info.stdin_data
          ∷ J.str info.expected_output
          ∷ J.unsigned info.sequence
          ∷ []);
    })
    pure (reply J created "upload test cases successfully")

  -- ProblemService::uploadTestCases
  unfoldable pub upload_test_cases : TestCaseInfo → String → Act S.World (ServiceInfo J)
  unfolding uploading
  upload_test_cases info token = do
    user ← authenticate J S cfg token
    authenticated (uploading info) user

  -- The entries of the list, in order.
  unfoldable pub problem_entries : List J.Json → Result (List J.Json)
  problem_entries [] = ok []
  problem_entries (val ∷ rest) =
      let more = problem_entries rest in
      elim (at_string J val "id") [
        | err e ↦ err e
        | ok id ↦ elim (at_string J val "title") [
          | err e ↦ err e
          | ok title ↦ elim (at_string J val "difficulty") [
            | err e ↦ err e
            | ok difficulty ↦ elim (at_string J val "description") [
              | err e ↦ err e
              | ok description ↦ elim more [
                | err e ↦ err e
                | ok entries ↦ ok (
                    J.object (
                      ("id", J.str id)
                      ∷ ("title", J.str title)
                      ∷ ("difficulty", J.str difficulty)
                      ∷ ("description", J.str description)
                      ∷ [])
                    ∷ entries)
              ]
            ]
          ]
        ]
      ]

  -- message["problem_list"] is there if something has been pushed to it.
  abbrev list_field : List J.Json → List (String × J.Json)
  list_field [] = []
  list_field (e ∷ es) = ("problem_list", J.array (e ∷ es)) ∷ []

  unfoldable pub listing : Act S.World (ServiceInfo J)
  listing = do
    rows ← query_db J S select_problems []
    entries ← lift (problem_entries rows)
    pure (record {
      message =
          ("message", J.str "get problem list successfully")
          ∷ ("total", J.unsigned (length rows))
          ∷ list_field entries;
      status = http_ok;
    })

  -- ProblemService::getProblemList
  unfoldable pub get_problem_list : String → Act S.World (ServiceInfo J)
  unfolding listing
  get_problem_list token = do
    known ← exists S token
    if not known
        then pure (reply J unauthorized "Authentication failed, please login again")
        else (do
          extended ← expire S cfg.key_ttl token
          if not extended
              then pure (
                  reply J internal_server_error "Authentication  extend failed in [getProblemList]")
              else listing)
