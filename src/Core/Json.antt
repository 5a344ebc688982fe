-- ===== src/Core/Json.antt =====
-- nlohmann::json, as far as the program uses it. The library is not part of the repository: it is
-- the parameter `JsonLib`, and `JsonLaws` states what its documentation says.
use text.Mathlib.Text.{◌==◌}
use oj_backend.Prelude.{
  ℕ, String, ℤ, pos, negsuc, ltb, ◌^◌, all, ◌≡◌, ◌<◌, u32_mod, Bool, true, false, Option, none,
  some, List, [], ◌∷◌, if◌then◌else◌,
}
use oj_backend.Exceptions.Result.{Result, Error, ok, err, ◌>>=◌}

abbrev pub find_key {ℓ} : {V : Type ℓ} → String → List (String × V) → Option V
find_key k [] = none
find_key k ((j, v) ∷ rest) = if j == k then some v else find_key k rest

-- What the `is_…` tests tell of a value, with the value itself. An unsigned number passes
-- `is_number_integer` too.
pub data Kind (F : Type 0) : Type 0 where
  string : String → Kind F
  signed : ℤ → Kind F
  natural : ℕ → Kind F
  floating : F → Kind F
  boolean : Bool → Kind F
  nothing compound : Kind F

abbrev pub is_integer : {F : Type 0} → Kind F → Bool
is_integer (signed _) = true
is_integer (natural _) = true
is_integer _ = false

-- A number of the type `int`.
abbrev pub fits_int : ℤ → Bool
fits_int (pos n) = ltb n (2 ^ 31)
fits_int (negsuc n) = ltb n (2 ^ 31)

-- The values, their constructors, `at`, `get<T>`, `dump` and `parse`; `none` is an exception. `F`
-- is the type of a `float`. Two values that compare equal by `==` are the same value here.
-- `is_finite` and `is_plain` are no functions of the library: they tell of a number that it is
-- neither NaN nor infinite, and of a value that there is no other number in it, for `dump` writes
-- such a number as null.
pub record JsonLib (F : Type 0) : Type 1 where
  pub Json : Type 0
  pub null : Json
  pub bool : Bool → Json
  pub str : String → Json
  pub integer : ℤ → Json
  pub unsigned : ℕ → Json
  pub real : F → Json
  pub array : List Json → Json
  pub object : List (String × Json) → Json
  pub find : Json → String → Option Json
  pub get_string : Json → Option String
  pub get_int : Json → Option ℤ
  pub get_uint : Json → Option ℕ
  pub get_real : Json → Option F
  pub kind : Json → Kind F
  -- what a range-based `for` runs over
  pub items : Json → List Json
  pub dump : Json → Option String
  pub parse : String → Option Json
  pub is_finite : F → Bool
  pub is_plain : Json → Bool

pub record JsonLaws {F : Type 0} (J : JsonLib F) : Type 0 where
  pub find-object :
      (k : String) (fields : List (String × J.Json))
      → J.find (J.object fields) k ≡ find_key k fields
  pub get_string-str : (s : String) → J.get_string (J.str s) ≡ some s
  pub get_int-integer : (n : ℤ) → fits_int n ≡ true → J.get_int (J.integer n) ≡ some n
  pub get_uint-unsigned : (n : ℕ) → n < u32_mod → J.get_uint (J.unsigned n) ≡ some n
  pub get_real-real : (x : F) → J.get_real (J.real x) ≡ some x
  pub find-null : (k : String) → J.find J.null k ≡ none
  pub get_string-kind : (j : J.Json) (s : String) → J.get_string j ≡ some s → J.kind j ≡ string s
  pub kind-null : J.kind J.null ≡ nothing
  pub kind-bool : (b : Bool) → J.kind (J.bool b) ≡ boolean b
  pub kind-integer : (n : ℤ) → is_integer (J.kind (J.integer n)) ≡ true
  pub kind-real : (x : F) → J.kind (J.real x) ≡ floating x
  pub kind-str : (s : String) → J.kind (J.str s) ≡ string s
  pub kind-unsigned : (n : ℕ) → n < u32_mod → J.kind (J.unsigned n) ≡ natural n
  pub items-array : (l : List J.Json) → J.items (J.array l) ≡ l
  pub is_plain-null : J.is_plain J.null ≡ true
  pub is_plain-bool : (b : Bool) → J.is_plain (J.bool b) ≡ true
  pub is_plain-str : (s : String) → J.is_plain (J.str s) ≡ true
  pub is_plain-integer : (n : ℤ) → J.is_plain (J.integer n) ≡ true
  pub is_plain-unsigned : (n : ℕ) → J.is_plain (J.unsigned n) ≡ true
  pub is_plain-real : (x : F) → J.is_finite x ≡ true → J.is_plain (J.real x) ≡ true
  pub is_plain-array : (l : List J.Json) → all J.is_plain l ≡ true → J.is_plain (J.array l) ≡ true
  pub is_plain-object :
      (fields : List (String × J.Json))
      → all (λ f. J.is_plain f.1) fields ≡ true
      → J.is_plain (J.object fields) ≡ true
  pub parse-dump :
      (j : J.Json) (s : String) → J.is_plain j ≡ true → J.dump j ≡ some s → J.parse s ≡ some j

abbrev pub or_throw {ℓ} : {A : Type ℓ} → Error → Option A → Result A
or_throw e none = err e
or_throw e (some a) = ok a

module _ {F : Type 0} (J : JsonLib F) where
  -- json.at(key)
  abbrev pub at : J.Json → String → Result J.Json
  at j k = or_throw (Error.json k) (J.find j k)

  -- json.at(key).get<T>()
  abbrev pub at_string : J.Json → String → Result String
  at_string j k = at j k >>= λ v. or_throw (Error.json k) (J.get_string v)

  abbrev pub at_int : J.Json → String → Result ℤ
  at_int j k = at j k >>= λ v. or_throw (Error.json k) (J.get_int v)

  abbrev pub at_uint : J.Json → String → Result ℕ
  at_uint j k = at j k >>= λ v. or_throw (Error.json k) (J.get_uint v)

  abbrev pub at_real : J.Json → String → Result F
  at_real j k = at j k >>= λ v. or_throw (Error.json k) (J.get_real v)

  abbrev pub dump_text : J.Json → Result String
  dump_text j = or_throw (Error.json "dump") (J.dump j)

  abbrev pub parse_text : String → Result J.Json
  parse_text s = or_throw (Error.json "parse") (J.parse s)
