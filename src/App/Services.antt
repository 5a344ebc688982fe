-- ===== src/App/Services.antt =====
-- What the services share: app/include/services/ServiceInfo.hpp, core/include/Http.hpp, the values
-- that they read from the configuration, and app/src/services/IAuthRequired.cpp.
pub mod Auth
pub mod Problem
pub mod Submission
pub mod Access
pub mod Accounts
pub mod Collision
pub mod Registration
use oj_backend.Prelude.{ℕ, String, Bool, ◌&&◌, Option, none, some, List, [], ◌∷◌, leb, ltb}
use oj_backend.Core.Json.{JsonLib}
use oj_backend.Core.Types.{UserInfo}
use oj_backend.App.World.{Server}
use oj_backend.App.Monad.{Act}
use oj_backend.App.Token.{TokenManager, verify_token}

-- Core::Http::ResponseStatusCode
pub data ResponseStatusCode : Type 0 where
  http_ok created accepted no_content moved_permanently found : ResponseStatusCode
  bad_request unauthorized forbidden not_found method_not_allowed conflict : ResponseStatusCode
  too_many_requests internal_server_error not_implemented bad_gateway : ResponseStatusCode
  service_unavailable gateway_timeout : ResponseStatusCode

unfoldable pub status_code : ResponseStatusCode → ℕ
status_code http_ok = 200
status_code created = 201
status_code accepted = 202
status_code no_content = 204
status_code moved_permanently = 301
status_code found = 302
status_code bad_request = 400
status_code unauthorized = 401
status_code forbidden = 403
status_code not_found = 404
status_code method_not_allowed = 405
status_code conflict = 409
status_code too_many_requests = 429
status_code internal_server_error = 500
status_code not_implemented = 501
status_code bad_gateway = 502
status_code service_unavailable = 503
status_code gateway_timeout = 504

unfoldable pub is_success : ResponseStatusCode → Bool
is_success code = leb 200 (status_code code) && ltb (status_code code) 300

unfoldable pub is_redirection : ResponseStatusCode → Bool
is_redirection code = leb 300 (status_code code) && ltb (status_code code) 400

unfoldable pub is_client_error : ResponseStatusCode → Bool
is_client_error code = leb 400 (status_code code) && ltb (status_code code) 500

unfoldable pub is_server_error : ResponseStatusCode → Bool
is_server_error code = leb 500 (status_code code)

-- What the services read from the configuration.
pub record Config : Type 0 where
  pub tokens : TokenManager
  pub operate_channel : String
  pub key_ttl : ℕ
  pub problem_prefix : String
  pub limit_prefix : String
  pub submission_prefix : String

module _ {F : Type 0} (J : JsonLib F) where
  -- The fields of the JSON object `message`, and the status.
  pub record ServiceInfo : Type 0 where
    pub message : List (String × J.Json)
    pub status : ResponseStatusCode

  -- sv_info.message["message"] = …; sv_info.status = …
  abbrev pub reply : ResponseStatusCode → String → ServiceInfo
  reply status text = record { message = ("message", J.str text) ∷ []; status = status }

  -- IAuthRequired::createAuthFailedResp
  unfoldable pub create_auth_failed_resp : ServiceInfo
  create_auth_failed_resp = reply unauthorized "Invalid or expired token!"

  module _ (S : Server F) where
    -- IAuthRequired::authenticate
    unfoldable pub authenticate : Config → String → Act S.World (Option UserInfo)
    authenticate cfg token = verify_token S cfg.tokens token
