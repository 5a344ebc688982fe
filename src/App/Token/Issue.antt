-- ===== src/App/Token/Issue.antt =====
-- TokenManager::generateToken (app/src/services/TokenManager.cpp): what it stores, and which tokens
-- are accepted afterwards.
use text.Mathlib.Text.{◌==◌ as str_eq}
use oj_backend.Prelude.{
  String, ◌≡◌, ◌≢◌, refl, ap, subst, ◌∙◌, Bool, true, false, Option, none, some, arith,
  if◌then◌else◌, eq_refl,
}
use oj_backend.Exceptions.Result.{Result, ok, err}
use oj_backend.Core.Types.{UserInfo}
use oj_backend.App.World.{Server, RedisLaws, Claims}
use oj_backend.App.Monad.{caught, continue, pure}
use oj_backend.App.Redis.{set}
use oj_backend.App.Redis.Reads.{value-set}
use oj_backend.App.Token.{
  TokenManager, active_key, verify_token, claims_of, storing, generating, generate_token,
}
use oj_backend.App.Token.Session.{verify_token_sound}

stored_by :
    {W : Type 0} (s : String) (r : Result Bool × W) {t : String}
    → (caught (λ _. none) (continue (λ stored. pure (if stored then some s else none)) r)).0
      ≡ ok (some t)
    → (s ≡ t)
      × (r.0 ≡ ok true)
      × ((caught
            (λ _. none)
            (continue {B = Option String} (λ stored. pure (if stored then some s else none)) r)).1
          ≡ r.1)
stored_by s (ok true, w) h = (ground arith, refl, refl)
stored_by s (ok false, w) h = cc
stored_by s (err e, w) h = ground arith

module _ {F : Type 0} (S : Server F) (m : TokenManager) (user : UserInfo) where
  stored_ok :
      (o : Option String) (w : S.World) {t : String}
      → (caught (λ _. none) (storing S m user o w)).0 ≡ ok (some t)
      → (o ≡ some t)
        × ((set S (active_key S m user.user_uuid) t m.expire_time w).0 ≡ ok true)
        × ((caught (λ _. none) (storing S m user o w)).1
            ≡ (set S (active_key S m user.user_uuid) t m.expire_time w).1)
  unfolding storing
  stored_ok none w h = cc
  stored_ok (some s) w {t} h =
      let k = active_key S m user.user_uuid in
      let (e, f, g) = stored_by s (set S k s m.expire_time w) h in
      (
        ap some e,
        subst (λ x. (set S k x m.expire_time w).0 ≡ ok true) e f,
        g ∙ ap (λ x. (set S k x m.expire_time w).1) e,
      )

  -- A generated token is the signature of the user's claims, and the only change of a key is that
  -- it is the active token of the user.
  pub generate_token_stores :
      RedisLaws S
      → (w : S.World) {t : String} → (generate_token S m user w).0 ≡ ok (some t)
      → (S.jwt_sign m.jwt_secret_key (claims_of S m user (S.clock w)) ≡ some t)
        × ((j : String)
            → S.value (generate_token S m user w).1 j
              ≡ (if str_eq (active_key S m user.user_uuid) j then some t else S.value w j))
  unfolding generate_token generating
  generate_token_stores laws w {t} h =
      let k = active_key S m user.user_uuid in
      let (e, f, g) =
        stored_ok (S.jwt_sign m.jwt_secret_key (claims_of S m user (S.clock w))) w h in
      (e, λ j. ap (λ v. S.value v j) g ∙ value-set S laws k t j m.expire_time w f)

  -- With Redis as documented, once a token has been generated for a user, no other token with that
  -- user as its subject is accepted.
  pub single_session :
      RedisLaws S
      → (w : S.World) {t : String} (s : String) (c : Claims) (u : UserInfo)
      → (generate_token S m user w).0 ≡ ok (some t)
      → s ≢ t
      → S.jwt_decode s ≡ some c
      → c.subject ≡ some user.user_uuid
      → (verify_token S m s (generate_token S m user w).1).0 ≢ ok (some u)
  single_session laws w {t} s c u g n d e v =
      let a = verify_token_sound S m laws s (generate_token S m user w).1 {u = u} v in
      let (_, stored) = generate_token_stores laws w g in
      let same : u.user_uuid ≡ user.user_uuid = cc (a.decoded, a.subject) in
      let k = active_key S m user.user_uuid in
      let w1 = (generate_token S m user w).1 in
      let here : S.value w1 k ≡ some t = stored k ∙ rw (eq_refl k) in
      let there : S.value w1 k ≡ some s =
        subst (λ x. S.value w1 (active_key S m x) ≡ some s) same a.active in
      n (ground (arith, here, there))
