-- ===== src/App/Services/Auth.antt =====
-- app/src/services/AuthService.cpp: registration and login.
use text.Mathlib.Text.{◌==◌ as str_eq}
use oj_backend.Prelude.{
  pos, String, Bool, true, false, not, Option, none, some, List, [], ◌∷◌, if◌then◌else◌,
}
use oj_backend.Exceptions.Result.{Result, Error, ok, err}
use oj_backend.Core.Json.{JsonLib, dump_text, parse_text}
use oj_backend.Core.Types.{UserInfo}
use oj_backend.Core.Serial.{user_to_json, user_from_json}
use oj_backend.App.World.{Server}
use oj_backend.App.Monad.{Act, pure, throw, lift, ◌>>=◌}
use oj_backend.App.Redis.{set, get, exists}
use oj_backend.App.Operations.{query_db, insert}
use oj_backend.App.Messages.{DbOperateMessage, publish_db_operate}
use oj_backend.App.Token.{generate_token}
use oj_backend.App.Services.{Config, ServiceInfo, reply, http_ok, created, unauthorized, conflict}

abbrev pub select_user : String
select_user = "SELECT * FROM users WHERE username = ?"

abbrev pub select_one_user : String
select_one_user = "SELECT * FROM users WHERE username = ? LIMIT 1"

abbrev pub insert_user : String
insert_user = "INSERT INTO users (user_uuid,username,password_hash,email) VALUES(?,?,?,?)"

abbrev pub is_nil {ℓ} : {A : Type ℓ} → List A → Bool
is_nil [] = true
is_nil (x ∷ xs) = false

module _ {F : Type 0} (J : JsonLib F) (S : Server F) where
  -- AuthService::queryUserNameExist
  unfoldable pub query_user_name_exist : String → Act S.World Bool
  query_user_name_exist name = do
    cached ← exists S name
    if cached
        then pure false
        else (do rows ← query_db J S select_user (J.str name ∷ []); pure (not (is_nil rows)))

  -- AuthService::hashPassword
  unfoldable pub hash_password : String → Act S.World (Option String)
  hash_password password w = let (hash, w') = S.pwhash password w in (ok hash, w')

  -- AuthService::verifyPassword
  unfoldable pub verify_password : String → String → Bool
  verify_password password hash = S.pwhash_verify hash password

  unfoldable pub random_generator : Act S.World String
  random_generator w = let (uuid, w') = S.random_uuid w in (ok uuid, w')

  module _ (cfg : Config) where
    unfoldable pub insert_message : UserInfo → DbOperateMessage J
    insert_message info = record {
      op_type = insert;
      sql = insert_user;
      data_key = info.username;
      param_array = J.array (
          J.str info.user_uuid
          ∷ J.str info.username
          ∷ J.str info.password_hash
          ∷ J.str info.email
          ∷ []);
    }

    -- A user with its hash and its identifier is kept in Redis and sent to the database.
    unfoldable pub record_user : UserInfo → Act S.World (ServiceInfo J)
    record_user user = do
      text ← lift (dump_text J (user_to_json J user))
      _ ← set S user.username text 900
      _ ← publish_db_operate J S cfg.operate_channel (insert_message user)
      pure (reply J created "registration success")

    -- From the hash on.
    unfoldable pub register_as : UserInfo → Option String → Act S.World (ServiceInfo J)
    unfolding random_generator insert_message record_user
    register_as info none = throw (Error.system (pos 500) "hashPassword error")
    register_as info (some hash) = do
      uuid ← random_generator
      record_user (record info { user_uuid = uuid; password_hash = hash })

    -- AuthService::registryService
    unfoldable pub registry_service : UserInfo → Act S.World (ServiceInfo J)
    unfolding hash_password
    registry_service info = do
      taken ← query_user_name_exist info.username
      if taken
          then pure (reply J conflict "username exist, please try other name")
          else (do hash ← hash_password info.password_hash; register_as info hash)

    -- `front()` of the rows; it is undefined if there are none.
    abbrev pub front : List J.Json → Result J.Json
    front [] = err (Error.undefined "front of an empty array")
    front (row ∷ rest) = ok row

    -- The user as Redis or the database has it.
    unfoldable pub stored_user : String → Option String → Act S.World UserInfo
    stored_user username none = do
      rows ← query_db J S select_one_user (J.str username ∷ [])
      row ← lift (front rows)
      lift (user_from_json J row)
    stored_user username (some text) = do j ← lift (parse_text J text); lift (user_from_json J j)

    -- From the token on. An empty token is no token.
    unfoldable pub login_with : Option String → Act S.World (ServiceInfo J)
    login_with none = throw (Error.system (pos 500) "generateToken error")
    login_with (some token) =
        if str_eq token ""
        then throw (Error.system (pos 500) "generateToken error")
        else pure (record {
          message = ("message", J.str "login success") ∷ ("token", J.str token) ∷ [];
          status = http_ok;
        })

    -- From the check of the password on.
    unfoldable pub login_as : String → UserInfo → Act S.World (ServiceInfo J)
    unfolding verify_password
    login_as password info =
        if not (verify_password password info.password_hash)
        then pure (reply J unauthorized "password error")
        else (do token ← generate_token S cfg.tokens info; login_with token)

    -- AuthService::loginService
    unfoldable pub login_service : UserInfo → Act S.World (ServiceInfo J)
    login_service info = do
      known ← query_user_name_exist info.username
      if not known
          then pure (reply J unauthorized "username does not exist, please register firstly")
          else (do
            text ← get S info.username
            user ← stored_user info.username text
            login_as info.password_hash user)
