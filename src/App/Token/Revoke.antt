-- ===== src/App/Token/Revoke.antt =====
-- TokenManager::invalidateToken (app/src/services/TokenManager.cpp): what it ends.
use oj_backend.Prelude.{
  ℕ, ◌*◌, ◌-◌, ◌/◌, ◌<◌, String, ◌≡◌, ◌≢◌, refl, sym, ap, subst, ◌∙◌, Bool, true, false, not,
  Option, none, some, arith, leb, eq_refl, if◌then◌else◌, Bool-cases, Option-cases, inl, inr,
}
use oj_backend.Exceptions.Result.{ok}
use oj_backend.Core.Types.{UserInfo}
use oj_backend.App.World.{Server, RedisLaws, JwtLaws, Claims}
use oj_backend.App.Monad.{Act, pure, lift}
use oj_backend.App.Monad.Inversion.{>>=-ok, >>=-eq-ok, caught-eq-ok, caught-state}
use oj_backend.App.Redis.{set, del}
use oj_backend.App.Redis.Reads.{value-del}
use oj_backend.App.Token.{
  TokenManager, issuer, second, or_throw, active_key, blacklist_key, verify_token, get_token_expiry,
  revoking, invalidating, invalidate_token,
}
use oj_backend.App.Token.Session.{verify_token_sound, or_throw-eq-ok}

pub went_on :
    {W : Type 0} (b : Bool) (x : Act W Bool) (w : W)
    → ((if not b then pure false else x) w).0 ≡ ok true
    → ((if not b then pure false else x) w ≡ x w)
went_on true x w h = refl
went_on false x w h = cc

leb-< : (a b : ℕ) → leb a b ≡ true → a ≢ b → a < b
leb-< a b h n = ground (arith, h, n)

module _ {F : Type 0} (S : Server F) (m : TokenManager) where
  -- A token that is past its time, or whose subject has no active token.
  pub data Ended (token : String) (w : S.World) : Type 0 where
    expired :
        (c : Claims) (t : ℕ)
        → S.jwt_decode token ≡ some c
        → c.expires_at ≡ some t
        → t * second < S.clock w
        → Ended token w
    inactive :
        (c : Claims) (id : String)
        → S.jwt_decode token ≡ some c
        → c.subject ≡ some id
        → S.value w (active_key S m id) ≡ none
        → Ended token w

  revoking_ok :
      RedisLaws S
      → (token : String) (ttl : ℕ) (w : S.World) → (revoking S m token ttl w).0 ≡ ok true
      → Ended token (revoking S m token ttl w).1
  unfolding revoking
  revoking_ok laws token ttl w h =
      let (b, s, h1) = >>=-eq-ok (set S (blacklist_key S m token) "1" ttl) _ w h in
      let w1 = (set S (blacklist_key S m token) "1" ttl w).1 in
      let e1 = >>=-ok (set S (blacklist_key S m token) "1" ttl) _ w s in
      let e2 = went_on b _ w1 h1 in
      let (c, d, h3) =
        >>=-eq-ok (lift (or_throw "decode" (S.jwt_decode token))) _ w1
          (ap (λ r. r.0) (sym e2) ∙ h1) in
      let e3 = >>=-ok (lift (or_throw "decode" (S.jwt_decode token))) _ w1 d in
      let (id, i, h4) = >>=-eq-ok (lift (or_throw "sub" c.subject)) _ w1 h3 in
      let e4 = >>=-ok (lift (or_throw "sub" c.subject)) _ w1 i in
      let gone : S.value (del S (active_key S m id) w1).1 (active_key S m id) ≡ none =
        value-del S laws (active_key S m id) (active_key S m id) w1 h4
        ∙ rw (eq_refl (active_key S m id)) refl in
      subst (λ r. Ended token r.1) (sym (e1 ∙ e2 ∙ e3 ∙ e4))
        (inactive c id (or_throw-eq-ok "decode" (S.jwt_decode token) d)
          (or_throw-eq-ok "sub" c.subject i) gone)

  expiry-eq :
      (token : String) {n : ℕ}
      → get_token_expiry S m token ≡ some n
      → (c : Claims) × (t : ℕ) × (S.jwt_decode token ≡ some c)
        × (c.expires_at ≡ some t)
        × (n ≡ t * second)
  unfolding get_token_expiry
  expiry-eq token h = elim (Option-cases (S.jwt_decode token)) [
    | inl d ↦ ground (arith, d)
    | inr (c, d) ↦ elim (Option-cases c.expires_at) [
      | inl e ↦ ground (arith, d, e)
      | inr (t, e) ↦ ground (arith, d, e)
    ]
  ]

  invalidating_ok :
      RedisLaws S
      → (token : String) (o : Option ℕ) (w : S.World) → get_token_expiry S m token ≡ o
      → o ≢ some (S.clock w)
      → (invalidating S m token o w).0 ≡ ok true
      → Ended token (invalidating S m token o w).1
  unfolding invalidating
  invalidating_ok laws token none w g n h = cc
  invalidating_ok laws token (some n) w g k h = elim (Bool-cases (leb n (S.clock w))) [
    | inl l ↦
        let (c, t, d, e, f) = expiry-eq token g in
        rw l (
          expired c t d e
            (subst (λ x. x < S.clock w) f (leb-< n (S.clock w) l (λ q. k (ap (λ x. some x) q)))))
    | inr l ↦ rw l (
        revoking_ok laws token ((n - S.clock w) / second) w (
          subst
            (λ b.
              ((if b then (ok true, w) else revoking S m token ((n - S.clock w) / second) w)).0
              ≡ ok true)
            l h))
  ]

  Ended-refused :
      JwtLaws S
      → RedisLaws S
      → (token : String) (w : S.World) (u : UserInfo) → Ended token w
      → (verify_token S m token w).0 ≢ ok (some u)
  Ended-refused jwt laws token w u (expired c t d e l) v =
      let a = verify_token_sound S m laws token w {u = u} v in
      cc (a.signed, jwt.verify_expired m.jwt_secret_key issuer token c t (S.clock w) d e l)
  Ended-refused jwt laws token w u (inactive c id d i g) v =
      let a = verify_token_sound S m laws token w {u = u} v in
      let same : id ≡ u.user_uuid = cc (a.decoded, a.subject) in
      let here = subst (λ x. S.value w (active_key S m x) ≡ none) same g in cc (a.active, here)

  -- At the very time of the expiry, where the token library still accepts the token, invalidateToken
  -- returns true and does nothing.
  pub invalidate_at_expiry :
      (token : String) (w : S.World)
      → get_token_expiry S m token ≡ some (S.clock w)
      → invalidate_token S m token w ≡ (ok true, w)
  unfolding invalidate_token invalidating
  invalidate_at_expiry token w h = rw h (ground arith)

  -- With Redis and the token library as documented, after invalidateToken has returned true for a
  -- token, at another time than exactly that of its expiry, verifyToken returns no user for it.
  pub invalidate_ends :
      JwtLaws S
      → RedisLaws S
      → (token : String) (w : S.World) (u : UserInfo)
      → get_token_expiry S m token ≢ some (S.clock w)
      → (invalidate_token S m token w).0 ≡ ok true
      → (verify_token S m token (invalidate_token S m token w).1).0 ≢ ok (some u)
  unfolding invalidate_token
  invalidate_ends jwt laws token w u n h =
      let o = get_token_expiry S m token in
      let body = caught-eq-ok false (invalidating S m token o w) h (λ e. cc) in
      Ended-refused jwt laws token _ u (
        subst (Ended token) (sym (caught-state (λ _. false) (invalidating S m token o w)))
          (invalidating_ok laws token o w refl n body))
