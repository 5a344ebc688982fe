-- ===== src/App/Token.antt =====
-- app/src/services/TokenManager.cpp: JSON web tokens, one active token for each user and a
-- blacklist, both kept in Redis.
pub mod Session
pub mod Issue
pub mod Accept
pub mod Revoke
pub mod Refresh
pub mod Table
use Prim.Native.String.{◌++◌}
use text.Mathlib.Text.{◌==◌ as str_eq}
use oj_backend.Prelude.{
  ℕ, ◌+◌, ◌-◌, ◌*◌, ◌/◌, ◌^◌, String, Bool, true, false, not, Option, none, some, leb,
  if◌then◌else◌,
}
use oj_backend.Exceptions.Result.{Result, Error, ok, err}
use oj_backend.Core.Types.{UserInfo}
use oj_backend.App.World.{Server, Claims}
use oj_backend.App.Monad.{Act, pure, throw, lift, catching, ◌>>=◌, ◌>>◌}
use oj_backend.App.Redis.{set, get, del, exists}

pub record TokenManager : Type 0 where
  pub jwt_secret_key : String
  pub active_prefix : String
  pub blacklist_prefix : String
  pub expire_time : ℕ

abbrev pub second : ℕ
second = 10 ^ 9

abbrev pub issuer : String
issuer = "oj-system"

abbrev or_throw : {A : Type 0} → String → Option A → Result A
or_throw what none = err (Error.runtime what)
or_throw what (some a) = ok a

-- active_token && active_token == token
abbrev is_active : String → Option String → Bool
is_active token none = false
is_active token (some t) = str_eq t token

named : String → Option String → Result (Option UserInfo)
named user_uuid none = err (Error.runtime "username")
named user_uuid (some username) =
    ok
      (some (record { user_uuid = user_uuid; username = username; password_hash = ""; email = "" }))

-- The user that is returned, if the token is the active one.
granting : Claims → String → Bool → Result (Option UserInfo)
unfolding named
granting claims user_uuid true = named user_uuid claims.username
granting claims user_uuid false = ok none

module _ {F : Type 0} (S : Server F) (m : TokenManager) where
  open S use {World}

  abbrev pub active_key : String → String
  active_key user_uuid = m.active_prefix ++ user_uuid

  abbrev pub blacklist_key : String → String
  blacklist_key token = m.blacklist_prefix ++ token

  abbrev pub claims_of : UserInfo → ℕ → Claims
  claims_of user now = record {
    issuer = issuer;
    subject = some user.user_uuid;
    username = some user.username;
    issued_at = some (now / second);
    expires_at = some (now / second + m.expire_time);
  }

  -- The body of the `try` of TokenManager::generateToken, from the signed token on.
  storing : UserInfo → Option String → Act World (Option String)
  storing user none = throw (Error.runtime "sign")
  storing user (some token) = do
    stored ← set S (active_key user.user_uuid) token m.expire_time
    pure (if stored then some token else none)

  generating : UserInfo → Act World (Option String)
  unfolding storing
  generating user w = storing user (S.jwt_sign m.jwt_secret_key (claims_of user (S.clock w))) w

  -- TokenManager::generateToken
  unfoldable pub generate_token : UserInfo → Act World (Option String)
  unfolding generating
  generate_token user = catching (generating user) (λ _. none)

  -- From the lookup of the active token on.
  matching : String → Claims → Act World (Option UserInfo)
  unfolding granting
  matching token claims = do
    user_id ← lift (or_throw "sub" claims.subject)
    active_token ← get S (active_key user_id)
    lift (granting claims user_id (is_active token active_token))

  -- From the lookup of the blacklist on; the token has been verified and decoded.
  checking : String → Claims → Act World (Option UserInfo)
  unfolding matching
  checking token claims = do
    listed ← exists S (blacklist_key token)
    if listed then pure none else matching token claims

  verifying : String → Act World (Option UserInfo)
  unfolding checking
  verifying token w =
      (do
        claims ← lift (or_throw "decode" (S.jwt_decode token))
        if S.jwt_verify m.jwt_secret_key issuer token (S.clock w)
            then checking token claims
            else throw (Error.runtime "verify"))
        w

  -- TokenManager::verifyToken
  unfoldable pub verify_token : String → Act World (Option UserInfo)
  unfolding verifying
  verify_token token = catching (verifying token) (λ _. none)

  -- TokenManager::getTokenExpiry, in nanoseconds
  unfoldable pub get_token_expiry : String → Option ℕ
  get_token_expiry token = elim (S.jwt_decode token) [
    | none ↦ none
    | some claims ↦ elim claims.expires_at [ none ↦ none | some t ↦ some (t * second) ]
  ]

  -- From the write of the blacklist on.
  revoking : String → ℕ → Act World Bool
  revoking token ttl = do
    listed ← set S (blacklist_key token) "1" ttl
    if not listed then pure false else (do
      claims ← lift (or_throw "decode" (S.jwt_decode token))
      user_id ← lift (or_throw "sub" claims.subject)
      del S (active_key user_id))

  invalidating : String → Option ℕ → Act World Bool
  unfolding revoking
  invalidating token none w = (ok false, w)
  invalidating token (some expiry) w =
      if leb expiry (S.clock w)
      then (ok true, w)
      else revoking token ((expiry - S.clock w) / second) w

  -- TokenManager::invalidateToken
  unfoldable pub invalidate_token : String → Act World Bool
  unfolding invalidating get_token_expiry
  invalidate_token token = catching (invalidating token (get_token_expiry token)) (λ _. false)

  -- From the check of the user on.
  renewing : String → Option UserInfo → Act World (Option String)
  renewing token none = pure none
  renewing token (some user) = do
    done ← invalidate_token token
    if done then generate_token user else pure none

  refreshing : String → Act World (Option String)
  unfolding renewing
  refreshing token = do user ← verify_token token; renewing token user

  -- TokenManager::refreshToken
  unfoldable pub refresh_token : String → Act World (Option String)
  unfolding refreshing
  refresh_token token = catching (refreshing token) (λ _. none)
