-- ===== src/Tests/Machine.antt =====
-- A small JSON library and a small server, for which the laws hold that the theorems ask for.
use text.Mathlib.Text.{◌==◌ as str_eq}
use oj_backend.Prelude.{
  ℕ, ◌≡◌, ◌<◌, ◌≤◌, ◌*◌, ◌/◌, ◌^◌, refl, sym, ◌∙◌, inl, inr, Bool-cases, ap, Bool, true, false,
  ◌&&◌, pos, Option, none, some, [], String, arith, leb, some-injective, ◌==◌, if◌then◌else◌,
  eq_iff,
}
use oj_backend.Core.Types.{UserInfo}
use oj_backend.App.World.{Server, RedisLaws, JwtLaws, Claims, is_some}
use oj_backend.App.Token.{TokenManager}

-- The keys that are set, and the time.
pub record World : Type 0 where
  pub keys : String → Option String
  pub now : ℕ

abbrev pub ann_claims : Claims
ann_claims = record {
  issuer = "oj-system";
  subject = some "u1";
  username = some "ann";
  issued_at = some 5;
  expires_at = some 8;
}

abbrev is_string : Option String → String → Bool
is_string none s = false
is_string (some t) s = str_eq t s

abbrev is_number : Option ℕ → ℕ → Bool
is_number none n = false
is_number (some m) n = m == n

abbrev is_ann : Claims → Bool
is_ann c =
    str_eq c.issuer "oj-system"
    && (is_string c.subject "u1"
        && (is_string c.username "ann" && (is_number c.issued_at 5 && is_number c.expires_at 8)))

is_string-eq : (o : Option String) (s : String) → is_string o s ≡ true → o ≡ some s
is_string-eq none s h = cc
is_string-eq (some t) s h = ground (arith, eq_iff t s)

is_number-eq : (o : Option ℕ) (n : ℕ) → is_number o n ≡ true → o ≡ some n
is_number-eq none n h = cc
is_number-eq (some m) n h = ground arith

both : (a b : Bool) → a && b ≡ true → (a ≡ true) × (b ≡ true)
both true b h = (refl, h)
both false b h = cc

is_ann-eq : (c : Claims) → is_ann c ≡ true → c ≡ ann_claims
is_ann-eq c h =
    let (a, r1) = both (str_eq c.issuer "oj-system") _ h in
    let (b, r2) = both (is_string c.subject "u1") _ r1 in
    let (d, r3) = both (is_string c.username "ann") _ r2 in
    let (e, f) = both (is_number c.issued_at 5) (is_number c.expires_at 8) r3 in
    let (q1, _) = eq_iff c.issuer "oj-system" in
    cc (
      q1 a,
      is_string-eq c.subject "u1" b,
      is_string-eq c.username "ann" d,
      is_number-eq c.issued_at 5 e,
      is_number-eq c.expires_at 8 f,
    )

abbrev pub server : Server ℕ
server = record {
  World = World;
  redis_set =
      λ k v ttl w. (some true, record w { keys = λ j. if str_eq k j then some v else w.keys j });
  redis_get = λ k w. (some (w.keys k), w);
  redis_del = λ k w. (some 1, record w { keys = λ j. if str_eq k j then none else w.keys j });
  redis_exists = λ k w. (some (is_some (w.keys k)), w);
  redis_expire = λ k ttl w. (some true, w);
  redis_publish = λ c m w. (some tt, w);
  execute_query = λ sql b w. (some [], w);
  execute_statement = λ sql b w.
      (some tt, record w { keys = λ j. if str_eq "executed" j then some sql else w.keys j });
  jwt_sign = λ secret c. if is_ann c then some "token" else none;
  jwt_decode = λ t. some ann_claims;
  jwt_verify =
      λ secret iss t now. leb (5 * 10 ^ 9) now && (leb now (8 * 10 ^ 9) && str_eq iss "oj-system");
  pwhash = λ p w. (some p, w);
  pwhash_verify = λ h p. str_eq h p;
  random_uuid = λ w. ("u1", w);
  clock = λ w. w.now;
  stod = λ s. none;
  to_ms = λ x. x * 1000;
  from_ms = λ n. n / 1000;
  errno = λ w. pos 5;
  value = λ w. w.keys;
}

pub redis_laws : RedisLaws server
redis_laws = record {
  value-set = λ k v j ttl w h. refl;
  get-value = λ k o w h. ground arith;
  value-get = λ k j w. refl;
  exists-value = λ k b w h. ground arith;
  value-exists = λ k j w. refl;
  value-del = λ k j n w h. refl;
}

decode-sign :
    (c : Claims) (t : String)
    → (if is_ann c then some "token" else none) ≡ some t
    → some ann_claims ≡ some c
decode-sign c t h = elim (Bool-cases (is_ann c)) [
  | inl e ↦ ap some (sym (is_ann-eq c e))
  | inr e ↦ absurd (ground arith)
]

signed_ann :
    (c : Claims) (t : String) → (if is_ann c then some "token" else none) ≡ some t → is_ann c ≡ true
signed_ann c t h = elim (Bool-cases (is_ann c)) [ inl e ↦ e | inr e ↦ absurd (ground arith) ]

abbrev valid_at : String → ℕ → Bool
valid_at iss now = leb (5 * 10 ^ 9) now && (leb now (8 * 10 ^ 9) && str_eq iss "oj-system")

verify-sign :
    (c : Claims) (t : String) (issued expires now : ℕ)
    → (if is_ann c then some "token" else none) ≡ some t
    → c.issued_at ≡ some issued
    → c.expires_at ≡ some expires
    → issued * 10 ^ 9 ≤ now
    → now ≤ expires * 10 ^ 9
    → valid_at c.issuer now ≡ true
verify-sign c t issued expires now h f e k l =
    let q = is_ann-eq c (signed_ann c t h) in
    let i : c.issuer ≡ "oj-system" = ap (λ d. d.issuer) q in
    let j : some 5 ≡ some issued = sym (ap (λ d. d.issued_at) q) ∙ f in
    let x : some 8 ≡ some expires = sym (ap (λ d. d.expires_at) q) ∙ e in
    let n : 5 ≡ issued = some-injective j in
    let o : 8 ≡ expires = some-injective x in ground (arith, i, n, o, k, l)

verify_expired :
    (iss : String) (expires now : ℕ)
    → some 8 ≡ some expires
    → expires * 10 ^ 9 < now
    → valid_at iss now ≡ false
verify_expired iss expires now e l = let o : 8 ≡ expires = some-injective e in ground (arith, o, l)

verify_early :
    (iss : String) (issued now : ℕ)
    → some 5 ≡ some issued
    → now < issued * 10 ^ 9
    → valid_at iss now ≡ false
verify_early iss issued now e l = let o : 5 ≡ issued = some-injective e in ground (arith, o, l)

pub jwt_laws : JwtLaws server
jwt_laws = record {
  decode-sign = λ secret t c h. decode-sign c t h;
  verify-sign =
      λ secret t c issued expires now h f e k l. verify-sign c t issued expires now h f e k l;
  verify_expired = λ secret iss t c expires now d e l.
      verify_expired iss expires now
        (ap (λ o. elim o [ none ↦ none | some x ↦ x.expires_at ]) d ∙ e) l;
  verify_early = λ secret iss t c issued now d e l.
      verify_early iss issued now (ap (λ o. elim o [ none ↦ none | some x ↦ x.issued_at ]) d ∙ e) l;
}

abbrev pub manager : TokenManager
manager = record {
  jwt_secret_key = "secret";
  active_prefix = "active:";
  blacklist_prefix = "blacklist:";
  expire_time = 3;
}

abbrev pub ann : UserInfo
ann = record { user_uuid = "u1"; username = "ann"; password_hash = "h"; email = "a@b.c" }

-- Five seconds after the epoch, with another token active for the user.
abbrev pub start : World
start = record { keys = λ k. if str_eq "active:u1" k then some "old" else none; now = 5 * 10 ^ 9 }
