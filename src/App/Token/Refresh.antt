-- ===== src/App/Token/Refresh.antt =====
-- TokenManager::refreshToken (app/src/services/TokenManager.cpp): what becomes of the old token.
use text.Mathlib.Text.{◌==◌ as str_eq}
use oj_backend.Prelude.{
  ℕ, ◌-◌, ◌/◌, ◌<◌, String, ◌≡◌, ◌≢◌, refl, sym, ap, subst, ◌∙◌, Bool, true, false, not, Option,
  none, some, arith, leb, eq_refl, if◌then◌else◌,
}
use oj_backend.Exceptions.Result.{ok}
use oj_backend.Core.Types.{UserInfo}
use oj_backend.App.World.{Server, RedisLaws}
use oj_backend.App.Monad.{Act, pure, lift}
use oj_backend.App.Monad.Inversion.{>>=-ok, >>=-eq-ok, caught-eq-ok, caught-state, allowed}
use oj_backend.App.Redis.{set, del}
use oj_backend.App.Redis.Reads.{value-set, value-del}
use oj_backend.App.Token.{
  TokenManager, second, or_throw, active_key, blacklist_key, verify_token, get_token_expiry,
  revoking, invalidating, invalidate_token, generate_token, renewing, refreshing, refresh_token,
}
use oj_backend.App.Token.Session.{verify_token_sound}
use oj_backend.App.Token.Issue.{generate_token_stores}
use oj_backend.App.Token.Revoke.{went_on}

done_or :
    {W : Type 0} (b : Bool) (x : Act W (Option String)) (w : W) {s : String}
    → ((if b then x else pure none) w).0 ≡ ok (some s)
    → b ≡ true
done_or true x w h = refl
done_or false x w h = cc

pub listed_true :
    {W : Type 0} (b : Bool) (x : Act W Bool) (w : W)
    → ((if not b then pure false else x) w).0 ≡ ok true
    → b ≡ true
listed_true true x w h = refl
listed_true false x w h = cc

module _ {F : Type 0} (S : Server F) (m : TokenManager) (laws : RedisLaws S) (token : String)
    (apart : (id : String) → str_eq (active_key S m id) (blacklist_key S m token) ≡ false) where
  revoking_lists :
      (ttl : ℕ) (w : S.World)
      → (revoking S m token ttl w).0 ≡ ok true
      → S.value (revoking S m token ttl w).1 (blacklist_key S m token) ≡ some "1"
  unfolding revoking
  revoking_lists ttl w h =
      let k = blacklist_key S m token in
      let (b, s, h1) = >>=-eq-ok (set S k "1" ttl) _ w h in
      let w1 = (set S k "1" ttl w).1 in
      let e1 = >>=-ok (set S k "1" ttl) _ w s in
      let listed = listed_true b _ w1 h1 in
      let e2 = went_on b _ w1 h1 in
      let (c, d, h3) =
        >>=-eq-ok (lift (or_throw "decode" (S.jwt_decode token))) _ w1
          (ap (λ r. r.0) (sym e2) ∙ h1) in
      let e3 = >>=-ok (lift (or_throw "decode" (S.jwt_decode token))) _ w1 d in
      let (id, i, h4) = >>=-eq-ok (lift (or_throw "sub" c.subject)) _ w1 h3 in
      let e4 = >>=-ok (lift (or_throw "sub" c.subject)) _ w1 i in
      let stays : S.value w1 k ≡ some "1" =
        value-set S laws k "1" k ttl w (s ∙ ap ok listed) ∙ rw (eq_refl k) refl in
      let kept : S.value (del S (active_key S m id) w1).1 k ≡ some "1" =
        value-del S laws (active_key S m id) k w1 h4 ∙ rw (apart id) stays in
      subst (λ r. S.value r.1 k ≡ some "1") (sym (e1 ∙ e2 ∙ e3 ∙ e4)) kept

  invalidating_lists :
      (n : ℕ) (w : S.World)
      → S.clock w < n
      → (invalidating S m token (some n) w).0 ≡ ok true
      → S.value (invalidating S m token (some n) w).1 (blacklist_key S m token) ≡ some "1"
  unfolding invalidating
  invalidating_lists n w early h =
      let ttl = (n - S.clock w) / second in
      let l : leb n (S.clock w) ≡ false = ground arith in
      rw l (
        revoking_lists ttl w
          (subst (λ b. ((if b then (ok true, w) else revoking S m token ttl w)).0 ≡ ok true) l h))

  invalidate_lists :
      (n : ℕ) (w : S.World)
      → get_token_expiry S m token ≡ some n
      → S.clock w < n
      → (invalidate_token S m token w).0 ≡ ok true
      → S.value (invalidate_token S m token w).1 (blacklist_key S m token) ≡ some "1"
  unfolding invalidate_token
  invalidate_lists n w expiry early h =
      let k = blacklist_key S m token in
      let act = λ (o : Option ℕ). invalidating S m token o w in
      let body = caught-eq-ok false (act (get_token_expiry S m token)) h (λ e. cc) in
      let listed = invalidating_lists n w early (ap (λ o. (act o).0) (sym expiry) ∙ body) in
      ap (λ v. S.value v k)
        (caught-state (λ _. false) (act (get_token_expiry S m token)) ∙ ap (λ o. (act o).1) expiry)
      ∙ listed

  renewing_ok :
      (user : UserInfo) (w : S.World) {s : String}
      → (renewing S m token (some user) w).0 ≡ ok (some s)
      → ((invalidate_token S m token w).0 ≡ ok true)
        × ((generate_token S m user (invalidate_token S m token w).1).0 ≡ ok (some s))
        × ((renewing S m token (some user) w).1
            ≡ (generate_token S m user (invalidate_token S m token w).1).1)
  unfolding renewing
  renewing_ok user w h =
      let (b, i, h1) = >>=-eq-ok (invalidate_token S m token) _ w h in
      let w1 = (invalidate_token S m token w).1 in
      let t = done_or b (generate_token S m user) w1 h1 in
      let e1 = >>=-ok (invalidate_token S m token) _ w i in
      let e2 = allowed b (generate_token S m user) (pure none) w1 t in
      (i ∙ ap ok t, ap (λ r. r.0) (sym e2) ∙ h1, ap (λ r. r.1) (e1 ∙ e2))

  renewing_user :
      (o : Option UserInfo) (w : S.World) {s : String}
      → (renewing S m token o w).0 ≡ ok (some s)
      → (user : UserInfo) × (o ≡ some user)
  unfolding renewing
  renewing_user none w h = cc
  renewing_user (some user) w h = (user, refl)

  -- The state that refreshToken leaves when it returns a token.
  refresh_ok :
      (w : S.World) {s : String}
      → (refresh_token S m token w).0 ≡ ok (some s)
      → (user : UserInfo) × ((renewing S m token (some user) (verify_token S m token w).1).0
          ≡ ok (some s))
        × ((refresh_token S m token w).1
            ≡ (renewing S m token (some user) (verify_token S m token w).1).1)
  unfolding refresh_token refreshing
  refresh_ok w h =
      let body = caught-eq-ok none (refreshing S m token w) h (λ e. cc) in
      let (o, v, h1) = >>=-eq-ok (verify_token S m token) (renewing S m token) w body in
      let e1 = >>=-ok (verify_token S m token) (renewing S m token) w v in
      let e0 = caught-state (λ _. none) (refreshing S m token w) in
      let (user, u) = renewing_user o (verify_token S m token w).1 h1 in
      (
        user,
        ap (λ x. (renewing S m token x (verify_token S m token w).1).0) (sym u) ∙ h1,
        e0 ∙ ap (λ r. r.1) e1 ∙ ap (λ x. (renewing S m token x (verify_token S m token w).1).1) u,
      )

  -- With Redis as documented and keys of active tokens that are no keys of the blacklist: when
  -- refreshToken returns a token, and the old one had not expired when it was checked, the old one
  -- is accepted no more, not even where it is the one that was returned.
  pub refresh_token_retires :
      (w : S.World) {s : String} (n : ℕ) (u : UserInfo)
      → get_token_expiry S m token ≡ some n
      → S.clock (verify_token S m token w).1 < n
      → (refresh_token S m token w).0 ≡ ok (some s)
      → (verify_token S m token (refresh_token S m token w).1).0 ≢ ok (some u)
  refresh_token_retires w n u expiry early h v =
      let w1 = (verify_token S m token w).1 in
      let (user, r, e) = refresh_ok w h in
      let (i, g, e') = renewing_ok user w1 r in
      let w2 = (invalidate_token S m token w1).1 in
      let k = blacklist_key S m token in
      let listed = invalidate_lists n w1 expiry early i in
      let (_, stored) = generate_token_stores S m user laws w2 g in
      let kept : S.value (generate_token S m user w2).1 k ≡ some "1" =
        stored k ∙ rw (apart user.user_uuid) listed in
      let a = verify_token_sound S m laws token (refresh_token S m token w).1 {u = u} v in
      let same = ap (λ x. S.value x k) (e ∙ e') in cc (a.not_listed, same, kept)
