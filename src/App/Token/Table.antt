-- ===== src/App/Token/Table.antt =====
-- TokenManager (app/src/services/TokenManager.cpp): what the calls leave of the active tokens.
pub mod Runs
pub mod Refinement
use Prim.Native.String.{◌++◌}
use text.Mathlib.Text.{◌==◌ as str_eq}
use text.Mathlib.TextLemmas.{append_cancel_left}
use oj_backend.Prelude.{
  ℕ, ◌-◌, ◌/◌, ◌<◌, String, ◌≡◌, refl, sym, ap, ◌∙◌, Bool, true, false, Option, none, some, arith,
  leb, eq_iff, if◌then◌else◌, Bool-cases, inl, inr,
}
use oj_backend.Exceptions.Result.{Result, ok, err}
use oj_backend.Core.Types.{UserInfo}
use oj_backend.App.World.{Server, RedisLaws, Claims}
use oj_backend.App.Monad.{Act, pure, lift, throw, continue, ◌>>=◌}
use oj_backend.App.Monad.Inversion.{>>=-ok, >>=-eq-ok, caught-eq-ok, caught-state}
use oj_backend.App.Redis.{set, get, exists}
use oj_backend.App.Redis.Reads.{value-set, value-del, value-get, value-exists}
use oj_backend.App.Token.{
  TokenManager, issuer, second, or_throw, active_key, blacklist_key, verify_token, verifying,
  checking, matching, get_token_expiry, revoking, invalidating, invalidate_token, generate_token,
}
use oj_backend.App.Token.Session.{verify_token_sound}
use oj_backend.App.Token.Issue.{generate_token_stores}
use oj_backend.App.Token.Revoke.{went_on}
use oj_backend.App.Token.Refresh.{listed_true}

same_truth : (a b : Bool) → (a ≡ true → b ≡ true) → (b ≡ true → a ≡ true) → a ≡ b
same_truth a b h k = elim (Bool-cases a) [ inl e ↦ e ∙ sym (h e) | inr e ↦ ground (arith, e, k) ]

pub str_eq-append : (start a b : String) → str_eq (start ++ a) (start ++ b) ≡ str_eq a b
str_eq-append start a b =
    same_truth (str_eq (start ++ a) (start ++ b)) (str_eq a b)
      (λ e. (eq_iff a b).1 (append_cancel_left start a b ((eq_iff (start ++ a) (start ++ b)).0 e)))
      (λ e. (eq_iff (start ++ a) (start ++ b)).1 (ap (λ x. start ++ x) ((eq_iff a b).0 e)))

str_eq_comm : (a b : String) → str_eq a b ≡ str_eq b a
str_eq_comm a b =
    same_truth (str_eq a b) (str_eq b a) (λ e. (eq_iff b a).1 (sym ((eq_iff a b).0 e)))
      (λ e. (eq_iff a b).1 (sym ((eq_iff b a).0 e)))

module _ {F : Type 0} (S : Server F) (m : TokenManager) (laws : RedisLaws S) where
  -- An action that changes no key.
  abbrev pub Keeps : {A : Type 0} → Act S.World A → Type 0
  Keeps x = (w : S.World) (j : String) → S.value (x w).1 j ≡ S.value w j

  continue-Keeps :
      {A B : Type 0} (f : A → Act S.World B) (r : Result A × S.World) (j : String)
      → ((a : A) → Keeps (f a))
      → S.value (continue f r).1 j ≡ S.value r.1 j
  continue-Keeps f (ok a, w) j h = h a w j
  continue-Keeps f (err e, w) j h = refl

  >>=-Keeps :
      {A B : Type 0} (x : Act S.World A) (f : A → Act S.World B)
      → Keeps x
      → ((a : A) → Keeps (f a))
      → Keeps (x >>= f)
  >>=-Keeps x f k h w j = continue-Keeps f (x w) j h ∙ k w j

  if-Keeps :
      {A : Type 0} (b : Bool) (x y : Act S.World A) → Keeps x → Keeps y → Keeps (if b then x else y)
  if-Keeps true x y h k = h
  if-Keeps false x y h k = k

  matching-Keeps : (token : String) (c : Claims) → Keeps (matching S m token c)
  unfolding matching
  matching-Keeps token c =
      >>=-Keeps (lift (or_throw "sub" c.subject)) _ (λ w j. refl)
        (λ id.
          >>=-Keeps (get S (active_key S m id)) _ (λ w j. value-get S laws (active_key S m id) j w)
            (λ t w j. refl))

  checking-Keeps : (token : String) (c : Claims) → Keeps (checking S m token c)
  unfolding checking
  checking-Keeps token c =
      >>=-Keeps (exists S (blacklist_key S m token)) _
        (λ w j. value-exists S laws (blacklist_key S m token) j w)
        (λ b. if-Keeps b (pure none) (matching S m token c) (λ w j. refl) (matching-Keeps token c))

  pub verify_token-Keeps : (token : String) → Keeps (verify_token S m token)
  unfolding verify_token verifying
  verify_token-Keeps token w j =
      ap (λ v. S.value v j) (caught-state (λ _. none) (verifying S m token w))
      ∙ >>=-Keeps (lift (or_throw "decode" (S.jwt_decode token))) _ (λ w j. refl)
          (λ c.
            if-Keeps (S.jwt_verify m.jwt_secret_key issuer token (S.clock w)) (checking S m token c)
              (throw _) (checking-Keeps token c) (λ w j. refl))
          w j

  module _
      (apart : (id token : String)
        → str_eq (active_key S m id) (blacklist_key S m token) ≡ false) where
    -- What revoking a token leaves of the active tokens.
    revoking-value :
        (token : String) (c : Claims) (id : String) (ttl : ℕ) (w : S.World)
        → S.jwt_decode token ≡ some c
        → c.subject ≡ some id
        → (revoking S m token ttl w).0 ≡ ok true
        → (j : String)
        → S.value (revoking S m token ttl w).1 (active_key S m j)
          ≡ (if str_eq id j then none else S.value w (active_key S m j))
    unfolding revoking
    revoking-value token c id ttl w decoded subject h j =
        let k = blacklist_key S m token in
        let a = active_key S m j in
        let (b, s, h1) = >>=-eq-ok (set S k "1" ttl) _ w h in
        let w1 = (set S k "1" ttl w).1 in
        let e1 = >>=-ok (set S k "1" ttl) _ w s in
        let e2 = went_on b _ w1 h1 in
        let listed = listed_true b _ w1 h1 in
        let d : or_throw "decode" (S.jwt_decode token) ≡ ok c = rw decoded refl in
        let e3 = >>=-ok (lift (or_throw "decode" (S.jwt_decode token))) _ w1 d in
        let i : or_throw "sub" c.subject ≡ ok id = rw subject refl in
        let e4 = >>=-ok (lift (or_throw "sub" c.subject)) _ w1 i in
        let h4 = ap (λ r. r.0) (sym (e2 ∙ e3 ∙ e4)) ∙ h1 in
        let stays : S.value w1 a ≡ S.value w a =
          value-set S laws k "1" a ttl w (s ∙ ap ok listed)
          ∙ rw (str_eq_comm k a ∙ apart j token) refl in
        ap (λ r. S.value r.1 a) (e1 ∙ e2 ∙ e3 ∙ e4)
        ∙ value-del S laws (active_key S m id) a w1 h4
        ∙ rw (str_eq-append m.active_prefix id j, stays) refl

    pub invalidate_token-value :
        (token : String) (c : Claims) (id : String) (n : ℕ) (w : S.World)
        → S.jwt_decode token ≡ some c
        → c.subject ≡ some id
        → get_token_expiry S m token ≡ some n
        → S.clock w < n
        → (invalidate_token S m token w).0 ≡ ok true
        → (j : String)
        → S.value (invalidate_token S m token w).1 (active_key S m j)
          ≡ (if str_eq id j then none else S.value w (active_key S m j))
    unfolding invalidate_token invalidating
    invalidate_token-value token c id n w decoded subject expiry early h j =
        let ttl = (n - S.clock w) / second in
        let late : leb n (S.clock w) ≡ false = ground arith in
        let act = λ (o : Option ℕ). invalidating S m token o w in
        let in_time : act (some n) ≡ revoking S m token ttl w = rw late refl in
        let here : act (get_token_expiry S m token) ≡ revoking S m token ttl w =
          ap act expiry ∙ in_time in
        let body = caught-eq-ok false (act (get_token_expiry S m token)) h (λ e. cc) in
        ap (λ v. S.value v (active_key S m j))
          (caught-state (λ _. false) (act (get_token_expiry S m token)) ∙ ap (λ r. r.1) here)
        ∙ revoking-value token c id ttl w decoded subject (ap (λ r. r.0) (sym here) ∙ body) j
