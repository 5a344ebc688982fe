-- ===== src/App/Token/Table/Refinement.antt =====
-- TokenManager (app/src/services/TokenManager.cpp) against a table of sessions.
use text.Mathlib.Text.{◌==◌ as str_eq}
use oj_backend.Prelude.{
  ℕ, ◌*◌, ◌<◌, ◌≤◌, String, ◌≡◌, ◌↔◌, refl, sym, ap, subst, ◌∙◌, Bool, true, false, Option, none,
  some, arith, Bool-cases, inl, inr, leb,
}
use oj_backend.Exceptions.Result.{ok}
use oj_backend.Core.Types.{UserInfo}
use oj_backend.App.World.{Server, RedisLaws, JwtLaws, Claims, is_some}
use oj_backend.App.Redis.{get, exists}
use oj_backend.App.Redis.Reads.{exists-value}
use oj_backend.App.Token.{
  TokenManager, issuer, second, active_key, blacklist_key, verify_token, claims_of,
}
use oj_backend.App.Token.Session.{user_of, Accepted, is_some-false}
use oj_backend.App.Token.Accept.{verify_token_iff}
use oj_backend.App.Token.Table.Runs.{
  Session, Table, Sessions, Signed, token_of, token_of-eq, some-eq, active_table, table-Signed,
}

-- The user has a session with this token and name, from the time of its issue to
-- that of its expiry.
abbrev pub IsOpen : Table → String → UserInfo → ℕ → Type 0
IsOpen table token u now =
    (s : Session) × (table u.user_uuid ≡ some s)
    × (s.token ≡ token)
    × (s.name ≡ u.username)
    × (s.issued * second ≤ now)
    × (now ≤ s.expires * second)

module _ {F : Type 0} (S : Server F) (m : TokenManager) (laws : RedisLaws S)
    (apart : (id token : String) → str_eq (active_key S m id) (blacklist_key S m token) ≡ false)
    (jwt : JwtLaws S) where
  -- What the checks of a session's token tell of the session.
  session_name :
      (id name : String) (s : Session) (c : Claims)
      → Signed S m id s
      → S.jwt_decode s.token ≡ some c
      → c.username ≡ some name
      → s.name ≡ name
  session_name id name s c (now, signed, _, _) decoded n =
      let own = jwt.decode-sign m.jwt_secret_key s.token _ signed in
      let same = ap (λ o. elim o [ none ↦ none | some d ↦ d.username ]) (sym own ∙ decoded) in
      some-eq (same ∙ n)

  session_time :
      (id : String) (s : Session) (time : ℕ)
      → Signed S m id s
      → S.jwt_verify m.jwt_secret_key issuer s.token time ≡ true
      → time ≤ s.expires * second
  session_time id s time (now, signed, _, expires) valid =
      elim (Bool-cases (leb time (s.expires * second))) [
        | inl e ↦ ground (arith, e)
        | inr e ↦
            let own = jwt.decode-sign m.jwt_secret_key s.token _ signed in
            let late : s.expires * second < time = ground (arith, e) in
            let refused =
              jwt.verify_expired m.jwt_secret_key issuer s.token _ s.expires time own
                (ap some (sym expires)) late in
            absurd (cc (valid, refused))
      ]

  session_start :
      (id : String) (s : Session) (time : ℕ)
      → Signed S m id s
      → S.jwt_verify m.jwt_secret_key issuer s.token time ≡ true
      → s.issued * second ≤ time
  session_start id s time (now, signed, issued, _) valid =
      elim (Bool-cases (leb (s.issued * second) time)) [
        | inl e ↦ ground (arith, e)
        | inr e ↦
            let own = jwt.decode-sign m.jwt_secret_key s.token _ signed in
            let early : time < s.issued * second = ground (arith, e) in
            let refused =
              jwt.verify_early m.jwt_secret_key issuer s.token _ s.issued time own
                (ap some (sym issued)) early in
            absurd (cc (valid, refused))
      ]

  session-IsOpen :
      {first w : S.World} {table : Table}
      → Sessions S m first w table
      → (token : String) (u : UserInfo) → Accepted S m token w u
      → IsOpen table token u (S.clock w)
  session-IsOpen {w = w} run token u a =
      let (s, here, same) =
        token_of-eq _ {t = token} (sym (active_table S m laws apart run u.user_uuid) ∙ a.active) in
      let k = table-Signed S m laws apart run u.user_uuid s here in
      (
        s,
        here,
        same,
        session_name u.user_uuid u.username s a.claims k (ap S.jwt_decode same ∙ a.decoded)
            a.username,
        session_start u.user_uuid s (S.clock w) k
            (ap (λ t. S.jwt_verify m.jwt_secret_key issuer t (S.clock w)) same ∙ a.signed),
        session_time u.user_uuid s (S.clock w) k
            (ap (λ t. S.jwt_verify m.jwt_secret_key issuer t (S.clock w)) same ∙ a.signed),
      )

  session-Accepted :
      {first w : S.World} {table : Table}
      → Sessions S m first w table
      → (u : UserInfo) (s : Session) → table u.user_uuid ≡ some s
      → s.name ≡ u.username
      → s.issued * second ≤ S.clock w
      → S.clock w ≤ s.expires * second
      → S.value w (blacklist_key S m s.token) ≡ none
      → u ≡ user_of u.user_uuid u.username
      → Accepted S m s.token w u
  session-Accepted {w = w} run u s here name start time free plain =
      let (now, signed, issued, expires) = table-Signed S m laws apart run u.user_uuid s here in
      record {
        claims = claims_of S m (user_of u.user_uuid s.name) now;
        decoded = jwt.decode-sign m.jwt_secret_key s.token _ signed;
        signed =
            jwt.verify-sign m.jwt_secret_key s.token _ s.issued s.expires (S.clock w) signed
              (ap some (sym issued)) (ap some (sym expires)) start time;
        subject = refl;
        username = ap some name;
        not_listed = free;
        active = active_table S m laws apart run u.user_uuid ∙ ap token_of here;
        plain = plain;
      }

  -- With Redis and the token library as documented, and keys of active tokens that are no keys of
  -- the blacklist: after any sequence of successful calls that issue tokens and end ones before
  -- the time of their expiry, and of checks, from a state without sessions, and as long as Redis answers,
  -- verifyToken returns a user for a token exactly if it is the token of the user's session in
  -- the table, in which a login replaces the session and a logout removes it, the session has
  -- this name, the time is not before its issue nor after its expiry, and the token is not on the blacklist. The user has no
  -- password hash and no email address.
  pub verify_token-table :
      {first w : S.World} {table : Table}
      → Sessions S m first w table
      → (token : String) (u : UserInfo) (listed : Bool) (a : Option String)
      → (exists S (blacklist_key S m token) w).0 ≡ ok listed
      → (get S (active_key S m u.user_uuid) (exists S (blacklist_key S m token) w).1).0 ≡ ok a
      → ((verify_token S m token w).0 ≡ ok (some u)) ↔ (
          IsOpen table token u (S.clock w)
          × (listed ≡ false)
          × (u ≡ user_of u.user_uuid u.username))
  verify_token-table {w = w} {table = table} run token u listed a x g =
      let (sound, complete) = verify_token_iff S m laws token w u listed a x g in
      let on_list = exists-value S laws (blacklist_key S m token) w x in
      (
        λ h.
            let r = sound h in
            (session-IsOpen run token u r, on_list ∙ ap is_some r.not_listed, r.plain),
        λ (k : IsOpen table token u (S.clock w)
              × (listed ≡ false)
              × (u ≡ user_of u.user_uuid u.username)).
            let (s, here, same, name, start, time) = k.0 in
            let free : S.value w (blacklist_key S m token) ≡ none =
              is_some-false _ (sym k.1 ∙ on_list) in
            let free_own = ap (λ t. S.value w (blacklist_key S m t)) same ∙ free in
            complete (
              subst (λ t. Accepted S m t w u) same
                (session-Accepted run u s here name start time free_own k.2)),
      )
