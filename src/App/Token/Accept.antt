-- ===== src/App/Token/Accept.antt =====
-- TokenManager::generateToken and verifyToken (app/src/services/TokenManager.cpp): a new token is
-- accepted.
use oj_backend.Prelude.{
  ℕ, ◌+◌, ◌*◌, ◌/◌, ◌≤◌, String, ◌≡◌, refl, sym, ap, ◌∙◌, ◌↔◌, Bool, true, false, Option, none,
  some, arith, eq_refl,
}
use oj_backend.Exceptions.Result.{ok}
use oj_backend.Core.Types.{UserInfo}
use oj_backend.App.World.{Server, RedisLaws, JwtLaws, Claims, is_some}
use oj_backend.App.Monad.{lift}
use oj_backend.App.Monad.Inversion.{>>=-ok, caught-ok, allowed}
use oj_backend.App.Redis.{get, exists}
use oj_backend.App.Redis.Reads.{get-value, exists-value, value-exists}
use oj_backend.App.Token.{
  named, TokenManager, issuer, second, or_throw, active_key, blacklist_key, is_active, granting,
  matching, checking, verifying, verify_token, claims_of, generate_token,
}
use oj_backend.App.Token.Session.{user_of, Accepted, verify_token_sound}
use oj_backend.App.Token.Issue.{generate_token_stores}

pub whole_seconds : (now later : ℕ) → now ≤ later → now / second * second ≤ later
whole_seconds now later h = omega (arith, h)

granting_value :
    (c : Claims) (t id name : String)
    → c.username ≡ some name
    → granting c id (is_active t (some t)) ≡ ok (some (user_of id name))
unfolding granting named
granting_value c t id name n = ground (arith, eq_refl t)

module _ {F : Type 0} (S : Server F) (m : TokenManager) where
  checking_value :
      (t id name : String) (c : Claims) (w : S.World)
      → (exists S (blacklist_key S m t) w).0 ≡ ok false
      → c.subject ≡ some id
      → c.username ≡ some name
      → (get S (active_key S m id) (exists S (blacklist_key S m t) w).1).0 ≡ ok (some t)
      → (checking S m t c w).0 ≡ ok (some (user_of id name))
  unfolding checking matching
  checking_value t id name c w b s n g =
      ap (λ r. r.0) (>>=-ok (exists S (blacklist_key S m t)) _ w b)
      ∙ ap (λ r. r.0)
          (>>=-ok (lift (or_throw "sub" c.subject)) _ (exists S (blacklist_key S m t) w).1
            (ap (or_throw "sub") s))
      ∙ ap (λ r. r.0) (>>=-ok (get S (active_key S m id)) _ (exists S (blacklist_key S m t) w).1 g)
      ∙ granting_value c t id name n

  verify_token_value :
      (t : String) (c : Claims) (w : S.World) {u : UserInfo}
      → S.jwt_decode t ≡ some c
      → S.jwt_verify m.jwt_secret_key issuer t (S.clock w) ≡ true
      → (checking S m t c w).0 ≡ ok (some u)
      → (verify_token S m t w).0 ≡ ok (some u)
  unfolding verify_token verifying
  verify_token_value t c w {u} d v h =
      let body : (verifying S m t w).0 ≡ ok (some u) =
        ap (λ r. r.0)
          (>>=-ok (lift (or_throw "decode" (S.jwt_decode t))) _ w (ap (or_throw "decode") d))
        ∙ ap (λ r. r.0)
            (allowed (S.jwt_verify m.jwt_secret_key issuer t (S.clock w)) (checking S m t c) _ w v)
        ∙ h in
      caught-ok (λ _. none) (verifying S m t w) body

  -- With Redis as documented and answering the two reads: verifyToken returns a user for a token
  -- exactly if the token decodes to that user, who has no password hash and no email address, has a
  -- valid signature, issuer and time, is not blacklisted, and is the active token of the user.
  pub verify_token_iff :
      RedisLaws S
      → (t : String) (w : S.World) (u : UserInfo) (listed : Bool) (a : Option String)
      → (exists S (blacklist_key S m t) w).0 ≡ ok listed
      → (get S (active_key S m u.user_uuid) (exists S (blacklist_key S m t) w).1).0 ≡ ok a
      → ((verify_token S m t w).0 ≡ ok (some u)) ↔ Accepted S m t w u
  verify_token_iff laws t w u listed a x g =
      let k = active_key S m u.user_uuid in
      (
        λ h. verify_token_sound S m laws t w {u = u} h,
        λ (r : Accepted S m t w u).
            let free : listed ≡ false =
              exists-value S laws (blacklist_key S m t) w x ∙ ap is_some r.not_listed in
            let found : a ≡ some t =
              get-value S laws k (exists S (blacklist_key S m t) w).1 g
              ∙ value-exists S laws (blacklist_key S m t) k w
              ∙ r.active in
            verify_token_value t r.claims w r.decoded r.signed (
              checking_value t u.user_uuid u.username r.claims w (x ∙ ap ok free) r.subject
                r.username (g ∙ ap ok found))
            ∙ ap (λ v. ok (some v)) (sym r.plain),
      )

  -- With Redis and the token library as documented, a token that generateToken returned is accepted
  -- until it expires, if the clock is not set back, and stands for the user, with no password hash and no email address, as long
  -- as Redis answers, does not drop the active token and the token is not on the blacklist.
  pub generated_accepted :
      JwtLaws S
      → RedisLaws S
      → (user : UserInfo) (w : S.World) {t : String} → (generate_token S m user w).0 ≡ ok (some t)
      → S.clock w ≤ S.clock (generate_token S m user w).1
      → S.clock (generate_token S m user w).1 ≤ (S.clock w / second + m.expire_time) * second
      → (exists S (blacklist_key S m t) (generate_token S m user w).1).0 ≡ ok false
      → (a : Option String)
      → (get S
          (active_key S m user.user_uuid)
          (exists S (blacklist_key S m t) (generate_token S m user w).1).1).0
        ≡ ok a
      → (verify_token S m t (generate_token S m user w).1).0
        ≡ ok (some (user_of user.user_uuid user.username))
  generated_accepted jwt laws user w {t} g later time listed a read =
      let w1 = (generate_token S m user w).1 in
      let k = active_key S m user.user_uuid in
      let c = claims_of S m user (S.clock w) in
      let (signed, stored) = generate_token_stores S m user laws w g in
      let here : S.value w1 k ≡ some t = stored k ∙ rw (eq_refl k) refl in
      let found : a ≡ some t =
        get-value S laws k (exists S (blacklist_key S m t) w1).1 read
        ∙ value-exists S laws (blacklist_key S m t) k w1
        ∙ here in
      verify_token_value t c w1 (jwt.decode-sign m.jwt_secret_key t c signed)
        (jwt.verify-sign m.jwt_secret_key t c _ _ (S.clock w1) signed refl refl
          (whole_seconds (S.clock w) (S.clock w1) later) time)
        (checking_value t user.user_uuid user.username c w1 listed refl refl (read ∙ ap ok found))
