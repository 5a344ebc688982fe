-- ===== src/Tests/Accounts.antt =====
-- The theorems on registrations and logins (app/src/services/AuthService.cpp) at a user.
use text.Mathlib.Text.{◌==◌ as str_eq}
use oj_backend.Prelude.{
  ℕ, ◌≡◌, refl, pos, false, Option, none, some, String, List, [], ◌∷◌, if◌then◌else◌, arith, eq_iff,
}
use oj_backend.Exceptions.Result.{ok}
use oj_backend.Core.Types.{UserInfo}
use oj_backend.Core.Serial.{user_to_json, user_from_json}
use oj_backend.App.World.{Server, JwtLaws, RedisLaws, Field, Column}
use oj_backend.App.Redis.{set, get, exists}
use oj_backend.App.Operations.{query_db, get_result, bind_kind, field_value}
use oj_backend.App.Messages.{publish_db_operate, is_valid, serialize, op_to_int}
use oj_backend.App.Subscriber.{process_db_operate_event}
use oj_backend.App.Token.{generate_token, verify_token}
use oj_backend.App.Token.Session.{user_of}
use oj_backend.App.Services.{reply, created, http_ok}
use oj_backend.App.Services.Auth.{
  query_user_name_exist, registry_service, hash_password, register_as, record_user,
  random_generator, insert_message, insert_user, login_service, stored_user, login_as, login_with,
}
use oj_backend.App.Services.Registration.{Registered, user_values, registration_inserted}
use oj_backend.App.Services.Registration.Login.{user_row, registered_login}
use oj_backend.Tests.Values.{json_lib, json_laws}
use oj_backend.Tests.Machine.{World, server, jwt_laws, redis_laws, manager, start}
use oj_backend.Tests.Services.{config}

-- The request: the password stands in the place of the hash.
abbrev new_user : UserInfo
new_user = record { user_uuid = ""; username = "ann"; password_hash = "h"; email = "a@b.c" }

registration_inserted_example :
    (g : Registered json_lib server config new_user
      (registry_service json_lib server config new_user start).1)
    × (process_db_operate_event json_lib server g.sent.text start
        ≡ (ok tt, (server.execute_statement insert_user (user_values g.user) start).1))
unfolding registry_service query_user_name_exist query_db get_result hash_password register_as
    record_user random_generator user_to_json publish_db_operate is_valid serialize insert_message
    set exists bind_kind op_to_int
registration_inserted_example =
    registration_inserted json_lib server config json_laws new_user start start
      {r = reply json_lib created "registration success"} refl refl

abbrev registered_user : UserInfo
registered_user = record new_user { user_uuid = "u1" }

abbrev some_field : Field ℕ
some_field = record {
  is_null = false;
  get_boolean = false;
  get_int = pos 1;
  get_int64 = pos 1;
  get_double = 0;
  get_string = "";
}

-- A database that has the user once a statement has run.
abbrev rows_of : Option String → List (List (Column × Field ℕ))
rows_of none = []
rows_of (some sql) = user_row some_field registered_user ∷ []

abbrev with_users : Server ℕ
with_users = record server {
  execute_query = λ sql bindings w. (some (rows_of (w.keys "executed")), w);
}

new_user_registered :
    Registered json_lib with_users config new_user
      (registry_service json_lib with_users config new_user start).1
unfolding registry_service query_user_name_exist query_db get_result hash_password register_as
    record_user random_generator user_to_json publish_db_operate is_valid serialize insert_message
    set exists bind_kind op_to_int
new_user_registered = record {
  user = registered_user;
  username = refl;
  email = refl;
  hashing = start;
  hashed = refl;
  sent = record {
    text = "insertion";
    before = (registry_service json_lib with_users config new_user start).1;
    serialised = refl;
    answered = refl;
    last = refl;
  };
}

users-JwtLaws : JwtLaws with_users
users-JwtLaws = record {
  decode-sign = jwt_laws.decode-sign;
  verify-sign = jwt_laws.verify-sign;
  verify_expired = jwt_laws.verify_expired;
  verify_early = jwt_laws.verify_early;
}

users-RedisLaws : RedisLaws with_users
users-RedisLaws = record {
  value-set = redis_laws.value-set;
  get-value = redis_laws.get-value;
  value-get = redis_laws.value-get;
  exists-value = redis_laws.exists-value;
  value-exists = redis_laws.value-exists;
  value-del = redis_laws.value-del;
}

-- The entry of the registration is gone, and the statement has run.
abbrev later : World
later = record start { keys = λ k. if str_eq "executed" k then some insert_user else start.keys k }

registered_login_example :
    ((login_service json_lib with_users config new_user later).0
      ≡ ok (record {
        message = ("message", json_lib.str "login success") ∷ ("token", json_lib.str "token") ∷ [];
        status = http_ok;
      }))
    × ((verify_token with_users manager "token"
          (login_service json_lib with_users config new_user later).1).0
        ≡ ok (some (user_of "u1" "ann")))
unfolding login_service exists new_user_registered get generate_token field_value stored_user
    user_from_json login_as login_with
registered_login_example =
    registered_login json_lib with_users config json_laws users-JwtLaws users-RedisLaws
      (λ p h w e. ground (arith, e, eq_iff h p)) new_user new_user_registered some_field later refl
      refl refl refl {token = "token"} refl refl refl (some "token") refl (omega arith)
      (omega arith)
