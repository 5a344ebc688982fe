-- ===== src/App/Token/Session.antt =====
-- TokenManager (app/src/services/TokenManager.cpp): which tokens are accepted.
use oj_backend.Prelude.{
  String, ◌≡◌, refl, sym, ap, subst, ◌∙◌, Bool, true, false, Option, none, some, arith,
  if◌then◌else◌, eq_iff,
}
use oj_backend.Exceptions.Result.{Error, ok}
use oj_backend.Core.Types.{UserInfo}
use oj_backend.App.World.{Server, RedisLaws, Claims, is_some}
use oj_backend.App.Monad.{Act, pure, lift, throw}
use oj_backend.App.Monad.Inversion.{>>=-eq-ok, caught-eq-ok}
use oj_backend.App.Redis.{get, exists}
use oj_backend.App.Redis.Reads.{get-value, exists-value, value-exists}
use oj_backend.App.Token.{
  TokenManager, issuer, or_throw, active_key, blacklist_key, is_active, granting, matching,
  checking, verifying, verify_token,
}

pub or_throw-eq-ok :
    {A : Type 0} (what : String) (o : Option A) {a : A} → or_throw what o ≡ ok a → o ≡ some a
or_throw-eq-ok what none h = cc
or_throw-eq-ok what (some b) h = ground arith

is_active-eq : (token : String) (o : Option String) → is_active token o ≡ true → o ≡ some token
is_active-eq token none h = cc
is_active-eq token (some t) h = ground (arith, eq_iff t token)

-- The user that a token stands for: no password hash and no email address.
abbrev pub user_of : String → String → UserInfo
user_of id name = record { user_uuid = id; username = name; password_hash = ""; email = "" }

granting_ok :
    (c : Claims) (id : String) (b : Bool) {u : UserInfo}
    → granting c id b ≡ ok (some u)
    → (b ≡ true)
      × (c.username ≡ some u.username)
      × (id ≡ u.user_uuid)
      × (u ≡ user_of u.user_uuid u.username)
unfolding granting
granting_ok c id b h = ground arith

refused_or :
    {W A : Type 0} (b : Bool) (x : Act W (Option A)) (w : W) {u : A}
    → ((if b then pure none else x) w).0 ≡ ok (some u)
    → (b ≡ false) × ((x w).0 ≡ ok (some u))
refused_or true x w h = cc
refused_or false x w h = (refl, h)

or_thrown :
    {W A : Type 0} (b : Bool) (e : Error) (x : Act W A) (w : W) {u : A}
    → ((if b then x else throw e) w).0 ≡ ok u
    → (b ≡ true) × ((x w).0 ≡ ok u)
or_thrown true e x w h = (refl, h)
or_thrown false e x w h = cc

pub is_some-false : {A : Type 0} (o : Option A) → false ≡ is_some o → o ≡ none
is_some-false none h = refl
is_some-false (some a) h = cc

module _ {F : Type 0} (S : Server F) (m : TokenManager) where
  -- What is known of an accepted token: it decodes, its signature, issuer and time hold, it is not
  -- blacklisted, and it is the active token of its subject, who is the user, with the name in the
  -- token.
  pub record Accepted (token : String) (w : S.World) (u : UserInfo) : Type 0 where
    pub claims : Claims
    pub decoded : S.jwt_decode token ≡ some claims
    pub signed : S.jwt_verify m.jwt_secret_key issuer token (S.clock w) ≡ true
    pub subject : claims.subject ≡ some u.user_uuid
    pub username : claims.username ≡ some u.username
    pub not_listed : S.value w (blacklist_key S m token) ≡ none
    pub active : S.value w (active_key S m u.user_uuid) ≡ some token
    pub plain : u ≡ user_of u.user_uuid u.username

  module _ (laws : RedisLaws S) where
    matching_ok :
        (token : String) (c : Claims) (w : S.World) {u : UserInfo}
        → (matching S m token c w).0 ≡ ok (some u)
        → (c.subject ≡ some u.user_uuid)
          × (c.username ≡ some u.username)
          × (S.value w (active_key S m u.user_uuid) ≡ some token)
          × (u ≡ user_of u.user_uuid u.username)
    unfolding matching
    matching_ok token c w {u} h =
        let (id, s, h1) = >>=-eq-ok (lift (or_throw "sub" c.subject)) _ w h in
        let (t, g, h2) = >>=-eq-ok (get S (active_key S m id)) _ w h1 in
        let (b, n, e, plain) = granting_ok c id (is_active token t) h2 in
        let read = get-value S laws (active_key S m id) w g in
        (
          or_throw-eq-ok "sub" c.subject s ∙ ap some e,
          n,
          subst (λ k. S.value w (active_key S m k) ≡ some token) e
              (sym read ∙ is_active-eq token t b),
          plain,
        )

    checking_ok :
        (token : String) (c : Claims) (w : S.World) {u : UserInfo}
        → (checking S m token c w).0 ≡ ok (some u)
        → (S.value w (blacklist_key S m token) ≡ none)
          × (c.subject ≡ some u.user_uuid)
          × (c.username ≡ some u.username)
          × (S.value w (active_key S m u.user_uuid) ≡ some token)
          × (u ≡ user_of u.user_uuid u.username)
    unfolding checking
    checking_ok token c w {u} h =
        let (b, x, h1) = >>=-eq-ok (exists S (blacklist_key S m token)) _ w h in
        let (f, h2) = refused_or b (matching S m token c) _ h1 in
        let (i, j, k, plain) = matching_ok token c (exists S (blacklist_key S m token) w).1 h2 in
        (
          is_some-false _ (sym f ∙ exists-value S laws (blacklist_key S m token) w x),
          i,
          j,
          sym (value-exists S laws (blacklist_key S m token) (active_key S m u.user_uuid) w) ∙ k,
          plain,
        )

    -- With Redis as documented, a token for which verifyToken returns a user decodes to that user,
    -- has a valid signature, issuer and time, is not blacklisted, and is the active token of the
    -- user.
    pub verify_token_sound :
        (token : String) (w : S.World) {u : UserInfo}
        → (verify_token S m token w).0 ≡ ok (some u)
        → Accepted token w u
    unfolding verify_token verifying
    verify_token_sound token w {u} h =
        let body = caught-eq-ok none (verifying S m token w) h (λ e. cc) in
        let (c, d, h1) = >>=-eq-ok (lift (or_throw "decode" (S.jwt_decode token))) _ w body in
        let (s, h2) =
          or_thrown (S.jwt_verify m.jwt_secret_key issuer token (S.clock w)) _
            (checking S m token c) w h1 in
        let (l, i, j, k, plain) = checking_ok token c w h2 in
        record {
          claims = c;
          decoded = or_throw-eq-ok "decode" (S.jwt_decode token) d;
          signed = s;
          subject = i;
          username = j;
          not_listed = l;
          active = k;
          plain = plain;
        }

    -- With Redis as documented, at any time at most one token is accepted for a user: two tokens for
    -- which verifyToken returns users with the same identifier are the same token.
    pub one_session :
        (s t : String) (w : S.World) {u v : UserInfo}
        → (verify_token S m s w).0 ≡ ok (some u)
        → (verify_token S m t w).0 ≡ ok (some v)
        → u.user_uuid ≡ v.user_uuid
        → s ≡ t
    one_session s t w {u} {v} hs ht same =
        let a = verify_token_sound s w {u = u} hs in
        let b = verify_token_sound t w {u = v} ht in
        let active = subst (λ x. S.value w (active_key S m x) ≡ some s) same a.active in
        cc (active, b.active)
