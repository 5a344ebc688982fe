-- ===== src/App/Api/Errors.antt =====
-- handleHttpWrapper (app/src/api/api.cpp): what a bad request and a failure are answered with.
use oj_backend.Prelude.{
  String, pos, ◌≡◌, refl, ap, ◌∙◌, Bool, true, not, any, none, some, List, [], ◌∷◌, arith, inl, inr,
  Bool-cases,
}
use oj_backend.Exceptions.Result.{Error, ok, err, ParameterError}
use oj_backend.Core.Types.{UserInfo}
use oj_backend.Core.Json.{JsonLib, JsonLaws, dump_text}
use oj_backend.App.World.{Server, is_some}
use oj_backend.App.Monad.{Act, lift, pure, ◌>>=◌}
use oj_backend.App.Services.{Config}
use oj_backend.App.Services.Auth.{registry_service, query_user_name_exist}
use oj_backend.App.Redis.{exists}
use oj_backend.App.Api.{
  Response, error_status, check_json_param_exist, message_body, answer_error, answered, validate,
  handle_http_wrapper, register_request, registry,
}

module _ {F : Type 0} (J : JsonLib F) where
  -- Whether a key is missing.
  abbrev pub lacks : J.Json → String → Bool
  lacks obj key = not (is_some (J.find obj key))

  check_lacks :
      (obj : J.Json) (required : List String)
      → any (lacks obj) required ≡ true
      → (key : String) × (check_json_param_exist J obj required
          ≡ err (Error.parameter ParameterError.missing_param key ""))
        × (lacks obj key ≡ true)
  unfolding check_json_param_exist
  check_lacks obj [] h = cc
  check_lacks obj (key ∷ rest) h = elim (Bool-cases (is_some (J.find obj key))) [
    | inl e ↦ let (k, c, l) = check_lacks obj rest (ground (arith, e)) in (k, rw e c, l)
    | inr e ↦ (key, rw e refl, ground (arith, e))
  ]

  module _ (S : Server F) (what : Error → String) where
    -- A request that is no JSON, or that lacks a required key.
    pub data IsBad (body : String) (required : List String) : Type 0 where
      not_json : J.parse body ≡ none → IsBad body required
      incomplete :
          (obj : J.Json)
          → J.parse body ≡ some obj
          → any (lacks obj) required ≡ true
          → IsBad body required

    bad-validate :
        (body : String) (required : List String)
        → IsBad body required
        → (e : Error) × (validate J S what body required ≡ err e)
          × (error_status e ≡ pos 400)
          × ((w : S.World)
              → answer_error J S what e w
                ≡ (lift (dump_text J (message_body J S what (what e))) >>= λ text.
                      pure (record { status = pos 400; body = text }))
                    w)
    unfolding validate error_status answer_error
    bad-validate body required (not_json h) =
        (Error.json "parse", rw (validate, h) refl, refl, λ w. refl)
    bad-validate body required (incomplete obj p h) =
        let (key, c, l) = check_lacks obj required h in
        (
          Error.parameter ParameterError.missing_param key "",
          rw (validate, p, c) refl,
          refl,
          λ w. refl,
        )

    -- A request that is no JSON, or lacks a required key, is answered with the status 400 and does
    -- nothing; only the text of the answer may fail to be written.
    pub bad_request_answered :
        (body : String) (required : List String) (f : J.Json → Act S.World Response) (w : S.World)
        → IsBad body required
        → (e : Error) × (handle_http_wrapper J S what body required f w
            ≡ (lift (dump_text J (message_body J S what (what e))) >>= λ text.
                  pure (record { status = pos 400; body = text }))
                w)
    unfolding handle_http_wrapper answered
    bad_request_answered body required f w h =
        let (e, v, s, a) = bad-validate body required h in (e, rw v (a w))

    exists_failed :
        (name : String) (w : S.World)
        → (S.redis_exists name w).0 ≡ none
        → exists S name w ≡ (
          err (Error.system (S.errno (S.redis_exists name w).1) "Redis exists error"),
          (S.redis_exists name w).1,
        )
    unfolding exists
    exists_failed name w h = ground (arith, h)

    registering_failed :
        (cfg : Config) (info : UserInfo) (e : Error) (w w1 : S.World)
        → exists S info.username w ≡ (err e, w1)
        → registry_service J S cfg info w ≡ (err e, w1)
    unfolding registry_service query_user_name_exist
    registering_failed cfg info e w w1 h = rw h refl

    abbrev pub registration : String → String → String → J.Json
    registration username password email =
        J.object (
          ("username", J.str username) ∷ ("password", J.str password) ∷ ("email", J.str email) ∷ [])

    validated :
        JsonLaws J
        → (body username password email : String)
        → J.parse body ≡ some (registration username password email)
        → validate J S what body ("username" ∷ "password" ∷ "email" ∷ [])
          ≡ ok (registration username password email)
    unfolding validate check_json_param_exist
    validated laws body username password email p = rw (validate, p) (simp (laws.find-object))

    requested :
        JsonLaws J
        → (cfg : Config) (username password email : String) (e : Error) (w w1 : S.World)
        → registry_service J S cfg
            (record {
              user_uuid = "";
              username = username;
              password_hash = password;
              email = email;
            })
            w
          ≡ (err e, w1)
        → register_request J S what cfg (registration username password email) w ≡ (err e, w1)
    unfolding register_request
    requested laws cfg username password email e w w1 h =
        simp (laws.find-object, laws.get_string-str) (rw h refl)

    -- When Redis does not answer and the answer can be written, a complete registration is answered
    -- with whatever `errno` holds as its status.
    pub registry_errno :
        JsonLaws J
        → (cfg : Config) (body username password email text : String) (w : S.World)
        → J.parse body ≡ some (registration username password email)
        → (S.redis_exists username w).0 ≡ none
        → J.dump (
            message_body J S what
              (what (Error.system (S.errno (S.redis_exists username w).1) "Redis exists error")))
          ≡ some text
        → registry J S what cfg body w ≡ (
          ok (record { status = S.errno (S.redis_exists username w).1; body = text }),
          (S.redis_exists username w).1,
        )
    unfolding registry handle_http_wrapper answered answer_error error_status
    registry_errno laws cfg body username password email text w p x d =
        let info : UserInfo = record {
          user_uuid = "";
          username = username;
          password_hash = password;
          email = email;
        } in
        let w1 = (S.redis_exists username w).1 in
        let e = Error.system (S.errno w1) "Redis exists error" in
        let failed = registering_failed cfg info e w w1 (exists_failed username w x) in
        ap (λ v. answered J S what ((lift v >>= register_request J S what cfg) w))
          (validated laws body username password email p)
        ∙ ap (answered J S what) (requested laws cfg username password email e w w1 failed)
        ∙ rw d refl
