-- ===== src/App/Token/Table/Runs.antt =====
-- TokenManager (app/src/services/TokenManager.cpp): the table of sessions that a sequence of calls
-- leads to, and what is true of it.
use text.Mathlib.Text.{◌==◌ as str_eq}
use oj_backend.Prelude.{
  ℕ, ◌+◌, ◌/◌, ◌<◌, String, ◌≡◌, refl, sym, subst, ◌∙◌, Bool, true, false, Option, none, some,
  arith, eq_iff, if◌then◌else◌, Bool-cases, inl, inr,
}
use oj_backend.Exceptions.Result.{ok}
use oj_backend.Core.Types.{UserInfo}
use oj_backend.App.World.{Server, RedisLaws, Claims}
use oj_backend.App.Token.{
  TokenManager, second, active_key, blacklist_key, verify_token, get_token_expiry, invalidate_token,
  generate_token, claims_of,
}
use oj_backend.App.Token.Session.{user_of}
use oj_backend.App.Token.Issue.{generate_token_stores}
use oj_backend.App.Token.Table.{str_eq-append, verify_token-Keeps, invalidate_token-value}

-- A session: the token, the name of the user, and the times, in seconds, of its issue and of its expiry.
pub record Session : Type 0 where
  pub token : String
  pub name : String
  pub issued : ℕ
  pub expires : ℕ

-- The session that each user has, by the identifier.
abbrev pub Table : Type 0
Table = String → Option Session

-- The table in which one user has another entry.
abbrev pub with_entry : Table → String → Option Session → Table
with_entry table id entry = λ j. if str_eq id j then entry else table j

abbrev pub token_of : Option Session → Option String
token_of none = none
token_of (some s) = some s.token

token_of-if :
    (b : Bool) (entry old : Option Session)
    → token_of (if b then entry else old) ≡ (if b then token_of entry else token_of old)
token_of-if true entry old = refl
token_of-if false entry old = refl

pub some-eq : {A : Type 0} {a b : A} → ◌≡◌ {A = Option A} (some a) (some b) → a ≡ b
some-eq h = ground (arith, h)

pub token_of-eq :
    (o : Option Session) {t : String}
    → token_of o ≡ some t
    → (s : Session) × (o ≡ some s) × (s.token ≡ t)
token_of-eq none h = cc
token_of-eq (some s) h = (s, refl, ground (arith, h))

module _ {F : Type 0} (S : Server F) (m : TokenManager) where
  -- The worlds that a sequence of calls leads to from one without sessions, each with its table.
  -- The calls issue a token, end one that has not expired, or check one.
  pub data Sessions (first : S.World) : S.World → Table → Type 0 where
    begun :
        ((id : String) → S.value first (active_key S m id) ≡ none)
        → Sessions first first (λ id. none)
    logged_in :
        (user : UserInfo) (t : String) {w : S.World} {table : Table}
        → Sessions first w table
        → (generate_token S m user w).0 ≡ ok (some t)
        → Sessions first (generate_token S m user w).1 (
            with_entry table user.user_uuid (
              some (record {
                token = t;
                name = user.username;
                issued = S.clock w / second;
                expires = S.clock w / second + m.expire_time;
              })))
    logged_out :
        (token : String) (c : Claims) (id : String) (n : ℕ) {w : S.World} {table : Table}
        → Sessions first w table
        → S.jwt_decode token ≡ some c
        → c.subject ≡ some id
        → get_token_expiry S m token ≡ some n
        → S.clock w < n
        → (invalidate_token S m token w).0 ≡ ok true
        → Sessions first (invalidate_token S m token w).1 (with_entry table id none)
    checked :
        (token : String) {w : S.World} {table : Table}
        → Sessions first w table
        → Sessions first (verify_token S m token w).1 table

  -- The token of a session was signed for its user.
  abbrev pub Signed : String → Session → Type 0
  Signed id s =
      (now : ℕ) × (S.jwt_sign m.jwt_secret_key (claims_of S m (user_of id s.name) now)
        ≡ some s.token)
      × (s.issued ≡ now / second)
      × (s.expires ≡ now / second + m.expire_time)

  module _ (laws : RedisLaws S)
      (apart : (id token : String)
        → str_eq (active_key S m id) (blacklist_key S m token) ≡ false) where
    -- Redis holds the tokens of the table.
    pub active_table :
        {first w : S.World} {table : Table}
        → Sessions first w table
        → (id : String) → S.value w (active_key S m id) ≡ token_of (table id)
    active_table (begun empty) id = empty id
    active_table (logged_in user t {w} {table} run g) id =
        let (_, stored) = generate_token_stores S m user laws w g in
        let b = str_eq user.user_uuid id in
        stored (active_key S m id)
        ∙ rw (str_eq-append m.active_prefix user.user_uuid id, active_table run id) refl
        ∙ sym (token_of-if b _ (table id))
    active_table (logged_out token c id' n {w} {table} run d s e l h) id =
        invalidate_token-value S m laws apart token c id' n w d s e l h id
        ∙ rw (active_table run id) refl
        ∙ sym (token_of-if (str_eq id' id) none (table id))
    active_table (checked token {w} run) id =
        verify_token-Keeps S m laws token w (active_key S m id) ∙ active_table run id

    with_entry-Signed :
        (uuid id : String) (new s : Session) (old : Option Session)
        → Signed uuid new
        → (old ≡ some s → Signed id s)
        → (if str_eq uuid id then some new else old) ≡ some s
        → Signed id s
    with_entry-Signed uuid id new s old k later h = elim (Bool-cases (str_eq uuid id)) [
      | inl e ↦
          let same : new ≡ s = ground (arith, e, h) in
          subst (λ i. Signed i s) ((eq_iff uuid id).0 e) (subst (Signed uuid) same k)
      | inr e ↦ later (ground (arith, e, h))
    ]

    pub table-Signed :
        {first w : S.World} {table : Table}
        → Sessions first w table
        → (id : String) (s : Session) → table id ≡ some s
        → Signed id s
    table-Signed (begun empty) id s h = absurd (ground (arith, h))
    table-Signed (logged_in user t {w} {table} run g) id s h =
        let (signed, _) = generate_token_stores S m user laws w g in
        with_entry-Signed user.user_uuid id _ s (table id) (S.clock w, signed, refl, refl)
          (table-Signed run id s) h
    table-Signed (logged_out token c id' n {w} {table} run d e f l g) id s h =
        table-Signed run id s (ground (arith, h))
    table-Signed (checked token {w} run) id s h = table-Signed run id s h
