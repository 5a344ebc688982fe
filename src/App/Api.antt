-- ===== src/App/Api.antt =====
-- app/src/api: the handlers of the HTTP server. The texts of the exceptions are an argument.
pub mod Errors
use oj_backend.Prelude.{
  String, ℤ, pos, Bool, true, false, Option, none, some, List, [], ◌∷◌, if◌then◌else◌,
}
use oj_backend.Exceptions.Result.{Result, Error, ok, err, ParameterError}
use oj_backend.Core.Enums.{lang_of_int}
use oj_backend.Core.Types.{UserInfo, SubmissionInfo}
use oj_backend.Core.Json.{JsonLib, at_string, at_int, dump_text, parse_text}
use oj_backend.Core.Serial.{problem_from_json, problem_limits_from_json, test_case_from_json}
use oj_backend.App.World.{Server, is_some}
use oj_backend.App.Monad.{Act, pure, lift, ◌>>=◌}
use oj_backend.App.Services.{Config, ServiceInfo, ResponseStatusCode, status_code}
use oj_backend.App.Services.Auth.{registry_service, login_service}
use oj_backend.App.Services.Problem.{
  create_problem, add_problem_limit, upload_test_cases, get_problem_list,
}
use oj_backend.App.Services.Submission.{submit, query_submission}

-- httplib::Response, as far as the handlers set it
pub record Response : Type 0 where
  pub status : ℤ
  pub body : String

-- The status that the catch clauses of handleHttpWrapper choose.
unfoldable pub error_status : Error → ℤ
error_status (Error.parameter type name info) = pos 400
error_status (Error.json what) = pos 400
error_status (Error.system code operation) = code
error_status _ = pos 500

module _ {F : Type 0} (J : JsonLib F) where
  -- Exceptions::checkJsonParamExist
  unfoldable pub check_json_param_exist : J.Json → List String → Result (Unit {0})
  check_json_param_exist obj [] = ok tt
  check_json_param_exist obj (key ∷ rest) =
      let later = check_json_param_exist obj rest in
      if is_some (J.find obj key)
      then later
      else err (Error.parameter ParameterError.missing_param key "")

  module _ (S : Server F) (what : Error → String) where
    abbrev pub message_body : String → J.Json
    message_body text = J.object (("message", J.str text) ∷ [])

    -- The catch clauses. What they throw themselves leaves the handler.
    unfoldable pub answer_error : Error → Act S.World Response
    unfolding error_status
    answer_error (Error.undefined u) w = (err (Error.undefined u), w)
    answer_error e w =
        (do
          text ← lift (dump_text J (message_body (what e)))
          pure (record { status = error_status e; body = text }))
          w

    unfoldable pub answered : Result Response × S.World → Result Response × S.World
    unfolding answer_error
    answered (ok r, w) = (ok r, w)
    answered (err e, w) = answer_error e w

    unfoldable pub validate : String → List String → Result J.Json
    unfolding check_json_param_exist
    validate body required = elim (parse_text J body) [
      | err e ↦ err e
      | ok request ↦ elim (check_json_param_exist request required) [
        | err e ↦ err e
        | ok u ↦ ok request
      ]
    ]

    -- handleHttpWrapper
    unfoldable pub handle_http_wrapper :
        String → List String → (J.Json → Act S.World Response) → Act S.World Response
    unfolding validate answered
    handle_http_wrapper body required f w = answered ((lift (validate body required) >>= f) w)

    -- res.status and res.set_content with the message itself, and with the message as a field
    unfoldable pub respond : ServiceInfo J → Act S.World Response
    respond info = do
      text ← lift (dump_text J (J.object info.message))
      pure (record { status = pos (status_code info.status); body = text })

    unfoldable pub respond_nested : ServiceInfo J → Act S.World Response
    respond_nested info = do
      text ← lift (dump_text J (J.object (("message", J.object info.message) ∷ [])))
      pure (record { status = pos (status_code info.status); body = text })

    module _ (cfg : Config) where
      unfoldable pub register_request : J.Json → Act S.World Response
      unfolding respond
      register_request request = do
        username ← lift (at_string J request "username")
        password ← lift (at_string J request "password")
        email ← lift (at_string J request "email")
        info ← registry_service J S cfg (record {
          user_uuid = "";
          username = username;
          password_hash = password;
          email = email;
        })
        respond info

      -- Authentication::registry
      unfoldable pub registry : String → Act S.World Response
      unfolding register_request
      registry body =
          handle_http_wrapper body ("username" ∷ "password" ∷ "email" ∷ []) register_request

      unfoldable pub login_request : J.Json → Act S.World Response
      unfolding respond
      login_request request = do
        username ← lift (at_string J request "username")
        password ← lift (at_string J request "password")
        info ←
            login_service J S cfg
              (record { user_uuid = ""; username = username; password_hash = password; email = "" })
        respond info

      -- Authentication::login
      unfoldable pub login : String → Act S.World Response
      unfolding login_request
      login body = handle_http_wrapper body ("username" ∷ "password" ∷ []) login_request

      -- Problems::createProblem
      unfoldable pub create_problem_api : String → Act S.World Response
      create_problem_api body =
          handle_http_wrapper body
            ("token" ∷ "username" ∷ "title" ∷ "difficulty" ∷ "description" ∷ [])
            (λ request. do
              info ← lift (problem_from_json J request)
              token ← lift (at_string J request "token")
              reply ← create_problem J S cfg info token
              respond_nested reply)

      -- Problems::addProblemLimit
      unfoldable pub add_problem_limit_api : String → Act S.World Response
      add_problem_limit_api body =
          handle_http_wrapper body
            ("token" ∷ "problem_title" ∷ "language_id" ∷ "time_limit_s" ∷ "extra_time_s"
              ∷ "wall_time_s" ∷ "memory_limit_kb" ∷ "stack_limit_kb" ∷ [])
            (λ request. do
              info ← lift (problem_limits_from_json J request)
              token ← lift (at_string J request "token")
              reply ← add_problem_limit J S cfg info token
              respond_nested reply)

      -- Problems::uploadTestCases
      unfoldable pub upload_test_cases_api : String → Act S.World Response
      upload_test_cases_api body =
          handle_http_wrapper body
            ("token" ∷ "problem_title" ∷ "stdin_data" ∷ "expected_output" ∷ "sequence" ∷ [])
            (λ request. do
              info ← lift (test_case_from_json J request)
              token ← lift (at_string J request "token")
              reply ← upload_test_cases J S cfg info token
              respond_nested reply)

      -- Problems::getProblemList
      unfoldable pub get_problem_list_api : String → Act S.World Response
      get_problem_list_api body =
          handle_http_wrapper body
            ("token" ∷ "problem_title" ∷ "stdin_data" ∷ "expected_output" ∷ "sequence" ∷ [])
            (λ request. do
              token ← lift (at_string J request "token")
              reply ← get_problem_list J S cfg token
              respond_nested reply)

      -- Submissions::submit
      unfoldable pub submit_api :
          (SubmissionInfo → Act S.World (Unit {0})) → String → Act S.World Response
      submit_api enqueue body =
          handle_http_wrapper body
            ("token" ∷ "username" ∷ "problem_title" ∷ "source_code" ∷ "language_id" ∷ [])
            (λ request. do
              username ← lift (at_string J request "username")
              problem_title ← lift (at_string J request "problem_title")
              source_code ← lift (at_string J request "source_code")
              language_id ← lift (at_int J request "language_id")
              token ← lift (at_string J request "token")
              reply ←
                  submit J S cfg enqueue
                    (record {
                      username = username;
                      problem_title = problem_title;
                      source_code = source_code;
                      submission_id = "";
                      language_id = lang_of_int language_id;
                    })
                    token
              respond_nested reply)

      -- Submissions::querySubmissions
      unfoldable pub query_submissions_api : String → Act S.World Response
      query_submissions_api body =
          handle_http_wrapper body ("token" ∷ "submission_id" ∷ []) (λ request. do
            token ← lift (at_string J request "token")
            submission_id ← lift (at_string J request "submission_id")
            reply ← query_submission J S cfg submission_id token
            respond_nested reply)
