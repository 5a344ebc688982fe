-- ===== src/App/World.antt =====
-- What the server works with but does not implement: the Redis server (through redis++), the
-- database (through MySQL Connector/C++), JSON web tokens (jwt-cpp), password hashing (libsodium),
-- random identifiers and the clock. They are the parameter `Server`, a machine with a state of its
-- own; `RedisLaws` and `JwtLaws` state what their documentation says.
use text.Mathlib.Text.{◌==◌}
use oj_backend.Prelude.{
  ℕ, ◌*◌, ◌≤◌, ◌<◌, ◌^◌, String, ℤ, ◌≡◌, Bool, true, false, Option, none, some, List, if◌then◌else◌,
}

-- The claims of a token that the program sets and reads. Times are in seconds.
pub record Claims : Type 0 where
  pub issuer : String
  pub subject : Option String
  pub username : Option String
  pub issued_at : Option ℕ
  pub expires_at : Option ℕ

-- The calls of sql::PreparedStatement that set a parameter.
pub data Binding (F : Type 0) : Type 0 where
  set_string : String → Binding F
  set_int : ℤ → Binding F
  set_uint : ℕ → Binding F
  set_double : F → Binding F
  set_boolean : Bool → Binding F
  set_null : Binding F

-- sql::DataType, as far as the program tells the types apart
pub data ColumnType : Type 0 where
  bit tinyint smallint mediumint integer bigint real double decimal numeric json other : ColumnType

-- A field of a result, through the getters of sql::ResultSet.
pub record Field (F : Type 0) : Type 0 where
  pub is_null : Bool
  pub get_boolean : Bool
  pub get_int : ℤ
  pub get_int64 : ℤ
  pub get_double : F
  pub get_string : String

pub record Column : Type 0 where
  pub name : String
  pub type : ColumnType

-- A result: each row has its fields with their columns.
abbrev pub ResultSet : Type 0 → Type 0
ResultSet F = List (List (Column × Field F))

-- Of a call of Redis, `none` is an sw::redis::Error; of a statement, an SQLException.
pub record Server (F : Type 0) : Type 1 where
  pub World : Type 0
  pub redis_set : String → String → ℕ → World → Option Bool × World
  pub redis_get : String → World → Option (Option String) × World
  pub redis_del : String → World → Option ℕ × World
  pub redis_exists : String → World → Option Bool × World
  pub redis_expire : String → ℕ → World → Option Bool × World
  pub redis_publish : String → String → World → Option (Unit {0}) × World
  pub execute_query : String → List (Binding F) → World → Option (ResultSet F) × World
  -- a statement that changes the data, with the commit or the rollback
  pub execute_statement : String → List (Binding F) → World → Option (Unit {0}) × World
  pub jwt_sign : String → Claims → Option String
  pub jwt_decode : String → Option Claims
  pub jwt_verify : String → String → String → ℕ → Bool
  pub pwhash : String → World → Option String × World
  pub pwhash_verify : String → String → Bool
  pub random_uuid : World → String × World
  -- nanoseconds
  pub clock : World → ℕ
  -- std::stod, and the conversions of a `float` that the program writes: `x * 1000` as a
  -- `uint32_t`, and `ms / 1000.f`
  pub stod : String → Option F
  pub to_ms : F → ℕ
  pub from_ms : ℕ → F
  pub errno : World → ℤ
  -- what a client of Redis can read under a key
  pub value : World → String → Option String

abbrev pub is_some {ℓ} : {A : Type ℓ} → Option A → Bool
is_some none = false
is_some (some a) = true

-- Redis over a stretch of time in which no key expires.
pub record RedisLaws {F : Type 0} (S : Server F) : Type 0 where
  pub value-set :
      (k v j : String) (ttl : ℕ) (w : S.World)
      → (S.redis_set k v ttl w).0 ≡ some true
      → S.value (S.redis_set k v ttl w).1 j ≡ (if k == j then some v else S.value w j)
  pub get-value :
      (k : String) (o : Option String) (w : S.World)
      → (S.redis_get k w).0 ≡ some o
      → o ≡ S.value w k
  pub value-get : (k j : String) (w : S.World) → S.value (S.redis_get k w).1 j ≡ S.value w j
  pub exists-value :
      (k : String) (b : Bool) (w : S.World)
      → (S.redis_exists k w).0 ≡ some b
      → b ≡ is_some (S.value w k)
  pub value-exists : (k j : String) (w : S.World) → S.value (S.redis_exists k w).1 j ≡ S.value w j
  pub value-del :
      (k j : String) (n : ℕ) (w : S.World)
      → (S.redis_del k w).0 ≡ some n
      → S.value (S.redis_del k w).1 j ≡ (if k == j then none else S.value w j)

-- A token says what was signed, and is valid for its issuer from the time of its issue to that of its
-- expiry, both included, and not before and not after.
pub record JwtLaws {F : Type 0} (S : Server F) : Type 0 where
  pub decode-sign :
      (secret t : String) (c : Claims) → S.jwt_sign secret c ≡ some t → S.jwt_decode t ≡ some c
  pub verify-sign :
      (secret t : String) (c : Claims) (issued expires now : ℕ)
      → S.jwt_sign secret c ≡ some t
      → c.issued_at ≡ some issued
      → c.expires_at ≡ some expires
      → issued * 10 ^ 9 ≤ now
      → now ≤ expires * 10 ^ 9
      → S.jwt_verify secret c.issuer t now ≡ true
  pub verify_expired :
      (secret iss t : String) (c : Claims) (expires now : ℕ)
      → S.jwt_decode t ≡ some c
      → c.expires_at ≡ some expires
      → expires * 10 ^ 9 < now
      → S.jwt_verify secret iss t now ≡ false
  pub verify_early :
      (secret iss t : String) (c : Claims) (issued now : ℕ)
      → S.jwt_decode t ≡ some c
      → c.issued_at ≡ some issued
      → now < issued * 10 ^ 9
      → S.jwt_verify secret iss t now ≡ false
