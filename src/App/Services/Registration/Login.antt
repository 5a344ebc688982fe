-- ===== src/App/Services/Registration/Login.antt =====
-- A user who has registered logs in (app/src/services/AuthService.cpp), when Redis has dropped the
-- entry of the registration and the table `users` (app/db/judgedb.sql) has the row.
use text.Mathlib.Text.{◌==◌ as str_eq}
use oj_backend.Prelude.{
  not, ◌+◌, ◌*◌, ◌/◌, ◌≤◌, String, ◌≡◌, refl, ap, sym, ◌∙◌, subst, true, false, Option, none, some,
  List, [], ◌∷◌, some-injective,
}
use oj_backend.Exceptions.Result.{ok}
use oj_backend.Core.Types.{UserInfo}
use oj_backend.Core.Json.{JsonLib, JsonLaws}
use oj_backend.Core.Serial.{user_from_json}
use oj_backend.App.World.{Server, RedisLaws, JwtLaws, Binding, Field, Column, ColumnType, ResultSet}
use oj_backend.App.Monad.{◌>>=◌}
use oj_backend.App.Monad.Inversion.{>>=-ok, not_refused}
use oj_backend.App.Redis.{get, exists}
use oj_backend.App.Operations.{
  query_db, read_result, get_result, row_fields, field_value, value_of, row_json, set_sql_variables,
  bind_kind,
}
use oj_backend.App.Token.{second, active_key, blacklist_key, generate_token, verify_token}
use oj_backend.App.Token.Session.{user_of}
use oj_backend.App.Token.Accept.{generated_accepted}
use oj_backend.App.Services.{Config, ServiceInfo, http_ok}
use oj_backend.App.Services.Auth.{
  select_user, select_one_user, query_user_name_exist, stored_user, login_with, login_as,
  login_service, verify_password,
}
use oj_backend.App.Services.Registration.{Registered}

abbrev column : String → ColumnType → Column
column name type = record { name = name; type = type }

module _ {F : Type 0} where
  -- The field of a text column, and of others what `like` has.
  abbrev text_field : Field F → String → Field F
  text_field like s = record like { is_null = false; get_string = s }

  -- The row of a user in the table; its number and the time are those of `like`.
  abbrev pub user_row : Field F → UserInfo → List (Column × Field F)
  user_row like user =
      (column "id" ColumnType.bigint, record like { is_null = false })
      ∷ (column "user_uuid" ColumnType.other, text_field like user.user_uuid)
      ∷ (column "username" ColumnType.other, text_field like user.username)
      ∷ (column "email" ColumnType.other, text_field like user.email)
      ∷ (column "password_hash" ColumnType.other, text_field like user.password_hash)
      ∷ (column "created_at" ColumnType.other, record like { is_null = false })
      ∷ []

module _ {F : Type 0} (J : JsonLib F) (S : Server F) (cfg : Config) (laws : JsonLaws J) where
  name_bound :
      (name : String) → set_sql_variables J (J.str name ∷ []) ≡ ok (Binding.set_string name ∷ [])
  unfolding set_sql_variables bind_kind
  name_bound name = simp laws.kind-str

  -- The row as getResult reads it.
  abbrev user_object : Field F → UserInfo → J.Json
  user_object like user = J.object (
      ("created_at", J.str like.get_string)
      ∷ ("password_hash", J.str user.password_hash)
      ∷ ("email", J.str user.email)
      ∷ ("username", J.str user.username)
      ∷ ("user_uuid", J.str user.user_uuid)
      ∷ ("id", J.integer like.get_int64)
      ∷ [])

  row_read :
      (like : Field F) (user : UserInfo)
      → get_result J S (user_row like user ∷ []) ≡ ok (user_object like user ∷ [])
  unfolding get_result row_fields field_value value_of row_json
  row_read like user = refl

  user_read :
      (like : Field F) (user : UserInfo) → user_from_json J (user_object like user) ≡ ok user
  unfolding user_from_json
  user_read like user = simp (laws.find-object, laws.get_string-str)

  answer_read :
      (r : Option (ResultSet F) × S.World) {rows : ResultSet F}
      → r.0 ≡ some rows
      → read_result J S r ≡ (get_result J S rows, r.1)
  unfolding read_result
  answer_read (none, w) h = cc
  answer_read (some rows, w) h = ap (λ l. (get_result J S l, w)) (some-injective h)

  abbrev pub asked : String → String → S.World → Option (ResultSet F) × S.World
  asked sql name w = S.execute_query sql (Binding.set_string name ∷ []) w

  query_row :
      (sql name : String) (like : Field F) (user : UserInfo) (w : S.World)
      → (asked sql name w).0 ≡ some (user_row like user ∷ [])
      → query_db J S sql (J.str name ∷ []) w
        ≡ (ok (user_object like user ∷ []), (asked sql name w).1)
  unfolding query_db
  query_row sql name like user w h =
      rw (query_db, name_bound name)
        (answer_read (asked sql name w) h
          ∙ ap (λ r. (r, (asked sql name w).1)) (row_read like user))

  module _ (info : UserInfo) (like : Field F) (user : UserInfo) (w : S.World)
      (free : (exists S info.username w).0 ≡ ok false) where
    -- The states in which the calls of a login are made.
    abbrev pub after_exists : S.World
    after_exists = (exists S info.username w).1

    abbrev pub after_select : S.World
    after_select = (asked select_user info.username after_exists).1

    abbrev pub after_get : S.World
    after_get = (get S info.username after_select).1

    abbrev pub at_token : S.World
    at_token = (asked select_one_user info.username after_get).1

    known :
        (asked select_user info.username after_exists).0 ≡ some (user_row like user ∷ [])
        → query_user_name_exist J S info.username w ≡ (ok true, after_select)
    unfolding query_user_name_exist
    known h =
        >>=-ok (exists S info.username) _ w free
        ∙ >>=-ok (query_db J S select_user (J.str info.username ∷ [])) _ after_exists
            (ap (λ r. r.0) (query_row select_user info.username like user after_exists h))
        ∙ ap (λ v. (ok true, v))
            (ap (λ r. r.1) (query_row select_user info.username like user after_exists h))

    stored :
        (asked select_one_user info.username after_get).0 ≡ some (user_row like user ∷ [])
        → stored_user J S cfg info.username none after_get ≡ (ok user, at_token)
    unfolding stored_user
    stored h =
        let q = query_row select_one_user info.username like user after_get h in
        >>=-ok (query_db J S select_one_user (J.str info.username ∷ [])) _ after_get
          (ap (λ r. r.0) q)
        ∙ ap (λ v. (user_from_json J (user_object like user), v)) (ap (λ r. r.1) q)
        ∙ ap (λ u. (u, at_token)) (user_read like user)

    abbrev pub success : String → ServiceInfo J
    success token = record {
      message = ("message", J.str "login success") ∷ ("token", J.str token) ∷ [];
      status = http_ok;
    }

    logged :
        {token : String}
        → S.pwhash_verify user.password_hash info.password_hash ≡ true
        → (generate_token S cfg.tokens user at_token).0 ≡ ok (some token)
        → str_eq token "" ≡ false
        → login_as J S cfg info.password_hash user at_token
          ≡ (ok (success token), (generate_token S cfg.tokens user at_token).1)
    unfolding login_as verify_password login_with
    logged {token} v g e =
        not_refused (not (S.pwhash_verify user.password_hash info.password_hash)) _ _ at_token
          (ap not v)
        ∙ >>=-ok (generate_token S cfg.tokens user) (login_with J S cfg) at_token g
        ∙ not_refused (str_eq token "") _ _ (generate_token S cfg.tokens user at_token).1 e

    login_lem :
        {token : String}
        → (asked select_user info.username after_exists).0 ≡ some (user_row like user ∷ [])
        → (get S info.username after_select).0 ≡ ok none
        → (asked select_one_user info.username after_get).0 ≡ some (user_row like user ∷ [])
        → S.pwhash_verify user.password_hash info.password_hash ≡ true
        → (generate_token S cfg.tokens user at_token).0 ≡ ok (some token)
        → str_eq token "" ≡ false
        → login_service J S cfg info w
          ≡ (ok (success token), (generate_token S cfg.tokens user at_token).1)
    unfolding login_service
    login_lem {token} k n o v g e =
        let q = known k in
        let u = stored o in
        >>=-ok (query_user_name_exist J S info.username) _ w (ap (λ r. r.0) q)
        ∙ ap
            (λ x.
              (get S info.username >>= λ text.
              stored_user J S cfg info.username text >>= login_as J S cfg info.password_hash)
                x)
            (ap (λ r. r.1) q)
        ∙ >>=-ok (get S info.username) _ after_select n
        ∙ >>=-ok (stored_user J S cfg info.username none) _ after_get (ap (λ r. r.0) u)
        ∙ ap (login_as J S cfg info.password_hash user) (ap (λ r. r.1) u)
        ∙ logged {token = token} v g e

  -- A user who has registered can log in with the password, and the token in the reply is accepted
  -- as this user's. This holds with the JSON, token and password libraries and Redis as documented,
  -- once Redis has dropped the entry of the registration and the database has the row, when a token
  -- that is not empty can be made, and, for the acceptance, until the token expires, if the clock is not set back, while Redis
  -- answers and the token is not on the blacklist.
  pub registered_login :
      JwtLaws S
      → RedisLaws S
      → ((password hash : String) (v : S.World)
          → (S.pwhash password v).0 ≡ some hash
          → S.pwhash_verify hash password ≡ true)
      → (info : UserInfo) {registered : S.World} (g : Registered J S cfg info registered)
      → (like : Field F) (w : S.World) (free : (exists S info.username w).0 ≡ ok false)
      → (asked select_user info.username (after_exists info like g.user w free)).0
        ≡ some (user_row like g.user ∷ [])
      → (get S info.username (after_select info like g.user w free)).0 ≡ ok none
      → (asked select_one_user info.username (after_get info like g.user w free)).0
        ≡ some (user_row like g.user ∷ [])
      → {token : String}
      → (generate_token S cfg.tokens g.user (at_token info like g.user w free)).0 ≡ ok (some token)
      → str_eq token "" ≡ false
      → (listed : (exists S (blacklist_key S cfg.tokens token) (login_service J S cfg info w).1).0
          ≡ ok false)
      → (a : Option String)
      → (get S
          (active_key S cfg.tokens g.user.user_uuid)
          (exists S (blacklist_key S cfg.tokens token) (login_service J S cfg info w).1).1).0
        ≡ ok a
      → S.clock (at_token info like g.user w free) ≤ S.clock (login_service J S cfg info w).1
      → S.clock (login_service J S cfg info w).1
        ≤ (S.clock (at_token info like g.user w free) / second + cfg.tokens.expire_time) * second
      → ((login_service J S cfg info w).0 ≡ ok (success info like g.user w free token))
        × ((verify_token S cfg.tokens token (login_service J S cfg info w).1).0
            ≡ ok (some (user_of g.user.user_uuid info.username)))
  registered_login jwt redis verifies info g like w free k n o {token} made e listed a read later
        time =
      let verified = verifies info.password_hash g.user.password_hash g.hashing g.hashed in
      let done = login_lem info like g.user w free {token = token} k n o verified made e in
      let start = at_token info like g.user w free in
      let after = (generate_token S cfg.tokens g.user start).1 in
      let here : after ≡ (login_service J S cfg info w).1 = sym (ap (λ r. r.1) done) in
      let key = blacklist_key S cfg.tokens token in
      let id = active_key S cfg.tokens g.user.user_uuid in
      let back = sym here in
      let accepted =
        generated_accepted S cfg.tokens jwt redis g.user start {t = token} made
          (subst (λ v. S.clock start ≤ S.clock v) back later)
          (subst (λ v. S.clock v ≤ (S.clock start / second + cfg.tokens.expire_time) * second) back
            time)
          (subst (λ v. (exists S key v).0 ≡ ok false) back listed) a
          (subst (λ v. (get S id (exists S key v).1).0 ≡ ok a) back read) in
      (
        ap (λ r. r.0) done,
        subst
            (λ v.
              (verify_token S cfg.tokens token v).0
              ≡ ok (some (user_of g.user.user_uuid info.username)))
            here (accepted ∙ ap (λ name. ok (some (user_of g.user.user_uuid name))) g.username),
      )
