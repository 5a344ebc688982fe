-- ===== src/App/Services/Accounts.antt =====
-- AuthService (app/src/services/AuthService.cpp) and getProblemList
-- (app/src/services/ProblemService.cpp): who can log in, and with what.
use text.Mathlib.Text.{◌==◌ as str_eq}
use oj_backend.Prelude.{
  String, ◌≡◌, ◌≢◌, refl, ap, sym, ◌∙◌, subst, Bool, true, false, not, Option, none, some, List, [],
  ◌∷◌, arith, inl, inr, Bool-cases, if◌then◌else◌, eq_iff,
}
use oj_backend.Exceptions.Result.{Error, ok}
use oj_backend.Core.Types.{UserInfo}
use oj_backend.Core.Json.{JsonLib, dump_text, parse_text, or_throw}
use oj_backend.Core.Serial.{user_to_json, user_from_json}
use oj_backend.App.World.{Server, RedisLaws, is_some}
use oj_backend.App.Monad.{Act, pure, lift, ◌>>=◌}
use oj_backend.App.Monad.Inversion.{>>=-ok, >>=-eq-ok}
use oj_backend.App.Redis.{get, set, exists}
use oj_backend.App.Redis.Reads.{exists-value}
use oj_backend.App.Operations.{query_db}
use oj_backend.App.Messages.Sent.{ok-eq}
use oj_backend.App.Token.{active_key, generate_token}
use oj_backend.App.Token.Issue.{generate_token_stores}
use oj_backend.App.Services.{Config, ServiceInfo, ResponseStatusCode, reply, http_ok, unauthorized}
use oj_backend.App.Services.Auth.{
  front, select_one_user, query_user_name_exist, verify_password, stored_user, login_with, login_as,
  login_service, registry_service, hash_password, register_as, record_user, random_generator,
  insert_message,
}
use oj_backend.App.Messages.{publish_db_operate}
use oj_backend.App.Services.Problem.{get_problem_list}

module _ {F : Type 0} (J : JsonLib F) (S : Server F) (cfg : Config) where
  -- Where a login finds the user of a name: under the name in Redis, or, if that has no entry, in the
  -- first row that the database gives for the name.
  pub data Found (name : String) (user : UserInfo) : Type 0 where
    in_redis :
        (text : String) (j : J.Json) (w : S.World)
        → (get S name w).0 ≡ ok (some text)
        → J.parse text ≡ some j
        → user_from_json J j ≡ ok user
        → Found name user
    in_database :
        (row : J.Json) (rest : List J.Json) (v w : S.World)
        → (get S name v).0 ≡ ok none
        → (query_db J S select_one_user (J.str name ∷ []) w).0 ≡ ok (row ∷ rest)
        → user_from_json J row ≡ ok user
        → Found name user

  -- A login that succeeded: the user that was found, and the state in which a token was made.
  pub record LoggedIn (name password : String) (r : ServiceInfo J) : Type 0 where
    pub user : UserInfo
    pub found : Found name user
    pub verified : S.pwhash_verify user.password_hash password ≡ true
    pub token : String
    pub state : S.World
    pub issued : (generate_token S cfg.tokens user state).0 ≡ ok (some token)
    pub reply_is : r ≡ record {
      message = ("message", J.str "login success") ∷ ("token", J.str token) ∷ [];
      status = http_ok;
    }

  login_with_ok :
      (o : Option String) (w : S.World) {r : ServiceInfo J}
      → (login_with J S cfg o w).0 ≡ ok r
      → (t : String) × (o ≡ some t)
        × (r ≡ record {
          message = ("message", J.str "login success") ∷ ("token", J.str t) ∷ [];
          status = http_ok;
        })
  unfolding login_with
  login_with_ok none w h = absurd (ground arith)
  login_with_ok (some t) w h = elim (Bool-cases (str_eq t "")) [
    | inl e ↦ absurd (ground (arith, e))
    | inr e ↦ (t, refl, ground (arith, e))
  ]

  front-first :
      (rows : List J.Json) {row : J.Json}
      → front J S cfg rows ≡ ok row
      → (rest : List J.Json) × (rows ≡ row ∷ rest)
  front-first [] h = cc
  front-first (row ∷ rest) h = (rest, ap (λ j. j ∷ rest) (ok-eq h))

  parse_text-eq :
      (o : Option J.Json) {j : J.Json} → or_throw (Error.json "parse") o ≡ ok j → o ≡ some j
  parse_text-eq none h = cc
  parse_text-eq (some j) h = ground (arith, h)

  stored_user-Found :
      (name : String) (text : Option String) (user : UserInfo) (v w : S.World)
      → (get S name v).0 ≡ ok text
      → (stored_user J S cfg name text w).0 ≡ ok user
      → Found name user
  unfolding stored_user
  stored_user-Found name none user v w g h =
      let (rows, q, h1) = >>=-eq-ok (query_db J S select_one_user (J.str name ∷ [])) _ w h in
      let (row, f, h2) = >>=-eq-ok (lift (front J S cfg rows)) _ _ h1 in
      let (rest, e) = front-first rows f in in_database row rest v w g (q ∙ ap ok e) h2
  stored_user-Found name (some text) user v w g h =
      let (j, p, h1) = >>=-eq-ok (lift (parse_text J text)) _ w h in
      in_redis text j v g (parse_text-eq (J.parse text) p) h1

  login_as_ok :
      (name password : String) (user : UserInfo) (w : S.World) {r : ServiceInfo J}
      → Found name user
      → (login_as J S cfg password user w).0 ≡ ok r
      → r.status ≡ http_ok
      → LoggedIn name password r
  unfolding login_as verify_password
  login_as_ok name password user w {r} f h s =
      elim (Bool-cases (S.pwhash_verify user.password_hash password)) [
        | inl e ↦
            let h1 : ((generate_token S cfg.tokens user >>= login_with J S cfg) w).0 ≡ ok r =
              subst
                (λ b.
                  ((if not b
                      then pure (reply J unauthorized "password error")
                      else (generate_token S cfg.tokens user >>= login_with J S cfg))
                    w).0
                  ≡ ok r)
                e h in
            let (o, g, k) =
              >>=-eq-ok (generate_token S cfg.tokens user) (login_with J S cfg) w h1 in
            let (t, q, i) = login_with_ok o _ k in
            record {
              user = user;
              found = f;
              verified = e;
              token = t;
              state = w;
              issued = g ∙ ap ok q;
              reply_is = i;
            }
        | inr e ↦ absurd (ground (arith, e))
      ]

  known_or :
      (b : Bool) (x : Act S.World (ServiceInfo J)) (text : String) (w : S.World) {r : ServiceInfo J}
      → ((if not b then pure (reply J unauthorized text) else x) w).0 ≡ ok r
      → r.status ≡ http_ok
      → (x w).0 ≡ ok r
  known_or true x text w h s = h
  known_or false x text w h s = absurd (ground arith)

  -- A login replies with success only if the password was verified against the hash of the user
  -- that Redis, or else the database, has under the name of the request, and then a token was generated for that user and is in the
  -- reply.
  pub login_service_sound :
      (info : UserInfo) (w : S.World) {r : ServiceInfo J}
      → (login_service J S cfg info w).0 ≡ ok r
      → r.status ≡ http_ok
      → LoggedIn info.username info.password_hash r
  unfolding login_service
  login_service_sound info w h s =
      let (known, k, h1) = >>=-eq-ok (query_user_name_exist J S info.username) _ w h in
      let w1 = (query_user_name_exist J S info.username w).1 in
      let h2 =
        known_or known
          (get S info.username >>= λ text.
            stored_user J S cfg info.username text >>= login_as J S cfg info.password_hash)
          _ w1 h1 s in
      let (text, g, h3) = >>=-eq-ok (get S info.username) _ w1 h2 in
      let (user, u, h4) = >>=-eq-ok (stored_user J S cfg info.username text) _ _ h3 in
      login_as_ok info.username info.password_hash user _
        (stored_user-Found info.username text user w1 _ g u) h4 s

  cached-unknown :
      (name : String) (w : S.World)
      → (exists S name w).0 ≡ ok true
      → query_user_name_exist J S name w ≡ (ok false, (exists S name w).1)
  unfolding query_user_name_exist
  cached-unknown name w h = >>=-ok (exists S name) _ w h

  record_user_ok :
      (user : UserInfo) (w : S.World) {r : ServiceInfo J}
      → (record_user J S cfg user w).0 ≡ ok r
      → r.status ≡ ResponseStatusCode.created
  unfolding record_user
  record_user_ok user w h =
      let send = publish_db_operate J S cfg.operate_channel (insert_message J S cfg user) in
      let last = reply J ResponseStatusCode.created "registration success" in
      let (text, t, h2) =
        >>=-eq-ok (lift (dump_text J (user_to_json J user)))
          (λ text. set S user.username text 900 >>= λ _. send >>= λ _. pure last) w h in
      let (stored, s, h3) =
        >>=-eq-ok (set S user.username text 900) (λ _. send >>= λ _. pure last) w h2 in
      let (sent, p, h4) = >>=-eq-ok send (λ _. pure last) (set S user.username text 900 w).1 h3 in
      ground (arith, h4)

  register_as_ok :
      (info : UserInfo) (o : Option String) (w : S.World) {r : ServiceInfo J}
      → (register_as J S cfg info o w).0 ≡ ok r
      → r.status ≡ ResponseStatusCode.created
  unfolding register_as
  register_as_ok info none w h = absurd (ground arith)
  register_as_ok info (some hash) w h =
      let user : String → UserInfo =
        λ uuid. record info { user_uuid = uuid; password_hash = hash } in
      let (uuid, u, h1) =
        >>=-eq-ok (random_generator J S) (λ uuid. record_user J S cfg (user uuid)) w h in
      record_user_ok (user uuid) (random_generator J S w).1 h1

  -- While Redis has an entry under the name of a user, as it does after a registration, a
  -- registration under that name that returns is not refused for a conflict, and the login is
  -- refused as that of an unknown user, whatever the password.
  pub cached_user_unknown :
      (info : UserInfo) (w : S.World) {r : ServiceInfo J}
      → (exists S info.username w).0 ≡ ok true
      → (registry_service J S cfg info w).0 ≡ ok r
      → (r.status ≡ ResponseStatusCode.created)
        × ((login_service J S cfg info w).0
            ≡ ok (reply J unauthorized "username does not exist, please register firstly"))
  unfolding login_service registry_service
  cached_user_unknown info w h g =
      let c = cached-unknown info.username w h in
      let asked = ap (λ r. r.0) c in
      let w1 = (query_user_name_exist J S info.username w).1 in
      let g1 =
        ap (λ r. r.0) (sym (>>=-ok (query_user_name_exist J S info.username) _ w asked)) ∙ g in
      let (o, p, g2) =
        >>=-eq-ok (hash_password J S info.password_hash) (register_as J S cfg info) w1 g1 in
      (
        register_as_ok info o _ g2,
        ap (λ r. r.0) (>>=-ok (query_user_name_exist J S info.username) _ w asked),
      )

  -- getProblemList looks the token up as a key. With Redis as documented and answering, a session
  -- that has just been issued has no such key, and is refused, unless the token is the key of the
  -- active token or was a key before.
  pub problem_list_refuses_sessions :
      RedisLaws S
      → (user : UserInfo) (w : S.World) {t : String} (b : Bool)
      → (generate_token S cfg.tokens user w).0 ≡ ok (some t)
      → active_key S cfg.tokens user.user_uuid ≢ t
      → S.value w t ≡ none
      → (exists S t (generate_token S cfg.tokens user w).1).0 ≡ ok b
      → (get_problem_list J S cfg t (generate_token S cfg.tokens user w).1).0
        ≡ ok (reply J unauthorized "Authentication failed, please login again")
  unfolding get_problem_list
  problem_list_refuses_sessions laws user w {t} b g n v x =
      let w1 = (generate_token S cfg.tokens user w).1 in
      let (signed, stored) = generate_token_stores S cfg.tokens user laws w g in
      let none_there : S.value w1 t ≡ none =
        stored t ∙ ground (arith, eq_iff (active_key S cfg.tokens user.user_uuid) t) in
      let f : b ≡ false = exists-value S laws t w1 x ∙ ap is_some none_there in
      ap (λ r. r.0) (>>=-ok (exists S t) _ w1 x) ∙ rw f refl
