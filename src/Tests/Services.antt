-- ===== src/Tests/Services.antt =====
-- The theorems on the services, the messages, the judge task and the handlers (app/src) at concrete
-- runs.
use text.Mathlib.Text.{◌==◌ as str_eq}
use oj_backend.Prelude.{ℕ, ◌≡◌, ◌≢◌, refl, pos, String, false, some, List, [], ◌∷◌, if◌then◌else◌}
use oj_backend.Exceptions.Result.{ok}
use oj_backend.Core.Types.{UserInfo, SubmissionInfo}
use oj_backend.Core.Json.{JsonLib}
use oj_backend.App.World.{Server, Binding, Field, Column, ColumnType}
use oj_backend.Core.Serial.{user_to_json, user_from_json}
use oj_backend.App.Monad.{Act}
use oj_backend.App.Redis.{set, get, exists}
use oj_backend.App.Operations.{
  insert, set_sql_variables, bind_kind, query_db, get_result, field_value,
}
use oj_backend.App.Operations.Bindings.{AllStandFor}
use oj_backend.App.Messages.{DbOperateMessage, serialize, op_to_int, publish_db_operate, is_valid}
use oj_backend.App.Token.{generate_token, verify_token}
use oj_backend.App.Token.Session.{Accepted}
use oj_backend.App.Token.Session.{user_of}
use oj_backend.App.Services.{
  Config, ServiceInfo, reply, created, unauthorized, http_ok, status_code, is_success,
}
use oj_backend.App.Services.{authenticate}
use oj_backend.App.Services.Submission.{query_submission, querying}
use oj_backend.App.Services.Auth.{
  query_user_name_exist, hash_password, verify_password, random_generator, insert_message,
  record_user, register_as, registry_service, stored_user, login_with, login_as, login_service,
}
use oj_backend.App.Services.Access.{perform, queries, perform_authorised}
use oj_backend.App.Services.Collision.{registry_ends_session}
use oj_backend.App.Services.Accounts.{LoggedIn, login_service_sound, cached_user_unknown}
use oj_backend.App.Subscriber.{process_db_operate_event}
use oj_backend.App.Subscriber.Delivery.{insertion_delivered}
use oj_backend.Tests.Values.{json_lib, json_laws, params, message, registration}
use oj_backend.Tests.Values
use oj_backend.Tests.Machine.{World, server, redis_laws, manager, start}

abbrev pub config : Config
config = record {
  tokens = manager;
  operate_channel = "db_operate_channel";
  key_ttl = 3600;
  problem_prefix = "problem:";
  limit_prefix = "limit:";
  submission_prefix = "submission:";
}

-- Two parameters of a statement.
abbrev two_params : List Values.Json
two_params = Values.str "Sum" ∷ Values.unsigned 2048 ∷ []

abbrev ann_message : DbOperateMessage json_lib
ann_message = record {
  op_type = insert;
  sql = "INSERT";
  data_key = "ann";
  param_array = json_lib.array params;
}

insertion_delivered_example :
    (bs : List (Binding ℕ)) × AllStandFor json_lib params bs
    × (set_sql_variables json_lib params ≡ ok bs)
    × (process_db_operate_event json_lib server "message" start
        ≡ (ok tt, (server.execute_statement "INSERT" bs start).1))
unfolding serialize op_to_int
insertion_delivered_example =
    insertion_delivered json_lib json_laws server ann_message params start {s = "message"} refl refl
      refl refl refl

-- A pool that takes every task.
abbrev no_queue : SubmissionInfo → Act World (Unit {0})
no_queue info w = (ok tt, w)

-- A submission is pending.
abbrev waiting_world : World
waiting_world = record start {
  keys = λ k. if str_eq "submission:s1" k then some "{}" else start.keys k;
}

abbrev found_reply : ServiceInfo json_lib
found_reply = record {
  message = ("message", Values.str "query succeed") ∷ ("submission_status", Values.str "{}") ∷ [];
  status = http_ok;
}

perform_authorised_example : (u : UserInfo) × Accepted server manager "old" waiting_world u
unfolding perform query_submission querying authenticate verify_token get exists is_success
    status_code
perform_authorised_example =
    perform_authorised json_lib server config no_queue redis_laws (queries "s1") "old" waiting_world
      {r = found_reply} refl refl

-- A database that has the user.
abbrev text_field : String → Field ℕ
text_field s = record {
  is_null = false;
  get_boolean = false;
  get_int = pos 0;
  get_int64 = pos 0;
  get_double = 0;
  get_string = s;
}

abbrev text_column : String → String → Column × Field ℕ
text_column name s = (record { name = name; type = ColumnType.other }, text_field s)

abbrev full_server : Server ℕ
full_server = record server {
  execute_query = λ sql b w. (
    some (
        (text_column "user_uuid" "u1"
          ∷ text_column "username" "ann"
          ∷ text_column "password_hash" "pw"
          ∷ text_column "email" "a@b.c"
          ∷ [])
        ∷ []),
    w,
  );
}

abbrev login_info : UserInfo
login_info = record { user_uuid = ""; username = "ann"; password_hash = "pw"; email = "" }

abbrev login_reply : ServiceInfo json_lib
login_reply = record {
  message = ("message", Values.str "login success") ∷ ("token", Values.str "token") ∷ [];
  status = http_ok;
}

login_service_sound_example : LoggedIn json_lib full_server config "ann" "pw" login_reply
unfolding login_service query_user_name_exist query_db get_result field_value stored_user
    user_from_json login_as verify_password login_with generate_token set get exists bind_kind
login_service_sound_example =
    login_service_sound json_lib full_server config login_info start {r = login_reply} refl refl

-- The entry of a user in Redis.
abbrev cached_world : World
cached_world = record start { keys = λ k. if str_eq "ann" k then some "{}" else start.keys k }

abbrev writing_lib : JsonLib ℕ
writing_lib = record json_lib { dump = λ j. some "{}" }

cached_user_unknown_example :
    (created ≡ created)
    × ((login_service writing_lib server config login_info cached_world).0
        ≡ ok (reply writing_lib unauthorized "username does not exist, please register firstly"))
unfolding registry_service query_user_name_exist hash_password register_as record_user
    random_generator user_to_json publish_db_operate is_valid serialize insert_message set exists
cached_user_unknown_example =
    cached_user_unknown writing_lib server config login_info cached_world
      {r = reply writing_lib created "registration success"} refl refl

-- A registration under the blacklist key of Ann's token.
abbrev attacker : UserInfo
attacker = record { user_uuid = ""; username = "blacklist:old"; password_hash = "pw"; email = "" }

registry_ends_session_example :
    (verify_token server manager "old"
      (registry_service writing_lib server config attacker start).1).0
    ≢ ok (some (user_of "u1" "ann"))
unfolding registry_service query_user_name_exist query_db get_result hash_password register_as
    record_user random_generator user_to_json publish_db_operate is_valid serialize insert_message
    set exists bind_kind
registry_ends_session_example =
    registry_ends_session writing_lib server config redis_laws (λ k v ttl w. refl)
      (λ channel text j w. refl) attacker start "old" (user_of "u1" "ann")
      {r = reply writing_lib created "registration success"} refl refl refl
