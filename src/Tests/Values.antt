-- ===== src/Tests/Values.antt =====
-- A small JSON library for which the laws hold that the theorems ask for. It writes and reads the
-- texts and the four other values of a table.
use text.Mathlib.Text.{◌==◌ as str_eq}
use oj_backend.Prelude.{
  ℕ, ◌≡◌, refl, ap, inl, inr, Bool, true, false, ◌&&◌, ◌||◌, not, pos, negsuc, ℤ, Option, none,
  some, List, [], ◌∷◌, String, arith, ◌==◌, if◌then◌else◌, eq_iff, Bool-cases,
}
use oj_backend.Core.Json.{JsonLib, JsonLaws, Kind, find_key}
use oj_backend.App.Services.Auth.{insert_user}
use oj_backend.App.Services.Submission.{insert_submission}
use oj_backend.App.JudgeTask.{update_status, insert_result}

mutual
  pub data Json : Type 0 where
    null : Json
    bool : Bool → Json
    str : String → Json
    integer : ℤ → Json
    unsigned real : ℕ → Json
    array : Items → Json
    object : Fields → Json

  pub data Items : Type 0 where
    no_item : Items
    item : Json → Items → Items

  pub data Fields : Type 0 where
    no_field : Fields
    field : String → Json → Fields → Fields

abbrev to_items : List Json → Items
to_items [] = no_item
to_items (j ∷ rest) = item j (to_items rest)

abbrev from_items : Items → List Json
from_items no_item = []
from_items (item j rest) = j ∷ from_items rest

items-array : (l : List Json) → from_items (to_items l) ≡ l
items-array [] = refl
items-array (j ∷ rest) = ap (λ r. j ∷ r) (items-array rest)

abbrev to_fields : List (String × Json) → Fields
to_fields [] = no_field
to_fields ((k, j) ∷ rest) = field k j (to_fields rest)

abbrev find_field : String → Fields → Option Json
find_field k no_field = none
find_field k (field j v rest) = if str_eq j k then some v else find_field k rest

abbrev find : Json → String → Option Json
find (object fields) k = find_field k fields
find _ k = none

abbrev get_string : Json → Option String
get_string (str s) = some s
get_string _ = none

abbrev get_int : Json → Option ℤ
get_int (integer n) = some n
get_int (unsigned n) = some (pos n)
get_int _ = none

abbrev get_uint : Json → Option ℕ
get_uint (unsigned n) = some n
get_uint (integer (pos n)) = some n
get_uint _ = none

abbrev get_real : Json → Option ℕ
get_real (real n) = some n
get_real _ = none

abbrev kind : Json → Kind ℕ
kind null = Kind.nothing
kind (bool b) = Kind.boolean b
kind (str s) = Kind.string s
kind (integer n) = Kind.signed n
kind (unsigned n) = Kind.natural n
kind (real x) = Kind.floating x
kind (array items) = Kind.compound
kind (object fields) = Kind.compound

both : (a b : Bool) → a && b ≡ true → (a ≡ true) × (b ≡ true)
both true b h = (refl, h)
both false b h = cc

abbrev int_eq : ℤ → ℤ → Bool
int_eq (pos m) (pos n) = m == n
int_eq _ _ = false

abbrev mutual
  json_eq : Json → Json → Bool
  json_eq (str s) (str t) = str_eq s t
  json_eq (integer m) (integer n) = int_eq m n
  json_eq (unsigned m) (unsigned n) = m == n
  json_eq (array l) (array m) = items_eq l m
  json_eq (object l) (object m) = fields_eq l m
  json_eq _ _ = false

  items_eq : Items → Items → Bool
  items_eq no_item no_item = true
  items_eq (item j l) (item k m) = json_eq j k && items_eq l m
  items_eq _ _ = false

  fields_eq : Fields → Fields → Bool
  fields_eq no_field no_field = true
  fields_eq (field s j l) (field t k m) = str_eq s t && (json_eq j k && fields_eq l m)
  fields_eq _ _ = false

int_eq-eq : (m n : ℤ) → int_eq m n ≡ true → m ≡ n
int_eq-eq (pos m) (pos n) h = ground arith
int_eq-eq (pos m) (negsuc n) h = cc
int_eq-eq (negsuc m) n h = cc

mutual
  json_eq-eq : (j k : Json) → json_eq j k ≡ true → j ≡ k
  json_eq-eq (str s) (str t) h = ap str ((eq_iff s t).0 h)
  json_eq-eq (integer m) (integer n) h = ap integer (int_eq-eq m n h)
  json_eq-eq (unsigned m) (unsigned n) h = ap unsigned (ground arith)
  json_eq-eq (array l) (array m) h = ap array (items_eq-eq l m h)
  json_eq-eq (object l) (object m) h = ap object (fields_eq-eq l m h)
  json_eq-eq _ _ h = cc

  items_eq-eq : (l m : Items) → items_eq l m ≡ true → l ≡ m
  items_eq-eq no_item no_item h = refl
  items_eq-eq (item j l) (item k m) h =
      let (a, b) = both (json_eq j k) _ h in cc (json_eq-eq j k a, items_eq-eq l m b)
  items_eq-eq _ _ h = cc

  fields_eq-eq : (l m : Fields) → fields_eq l m ≡ true → l ≡ m
  fields_eq-eq no_field no_field h = refl
  fields_eq-eq (field s j l) (field t k m) h =
      let (a, r) = both (str_eq s t) _ h in
      let (b, c) = both (json_eq j k) _ r in
      cc ((eq_iff s t).0 a, json_eq-eq j k b, fields_eq-eq l m c)
  fields_eq-eq _ _ h = cc

-- A registration, its parameters as they are sent, and the message.
abbrev pub registration : Json
registration = object (
    field "username" (str "ann")
      (field "password" (str "pw") (field "email" (str "a@b.c") no_field)))

abbrev pub params : List Json
params = str "u1" ∷ str "ann" ∷ str "h" ∷ str "a@b.c" ∷ []

abbrev pub message : Json
message = object (
    field "op_type" (integer (pos 1)) (
      field "sql" (str "INSERT")
        (field "data_key" (str "ann") (field "param_array" (str "params") no_field))))

abbrev pub failure : Json
failure = object (field "message" (str "Redis exists error") no_field)

-- A test case, as toJson writes it.
abbrev pub test_case : Json
test_case = object (
    field "problem_title" (str "Sum") (
      field "stdin_data" (str "1 2")
        (field "expected_output" (str "3") (field "sequence" (unsigned 1) no_field))))

-- A user, and the insertion of the user.
abbrev pub ann_json : Json
ann_json = object (
    field "user_uuid" (str "u1") (
      field "username" (str "ann")
        (field "password_hash" (str "h") (field "email" (str "a@b.c") no_field))))

abbrev pub insertion : Json
insertion = object (
    field "op_type" (integer (pos 1)) (
      field "sql" (str insert_user)
        (field "data_key" (str "ann") (field "param_array" (str "params") no_field))))

-- The verdict on a submission with one test, and the result of the test.
abbrev verdict : Json
verdict = array (item (str "ACCEPT") (item (str "s1") no_item))

abbrev verdict_update : Json
verdict_update = object (
    field "op_type" (integer (pos 2)) (
      field "sql" (str update_status) (
        field "data_key" (str "s1_overall_status") (field "param_array" (str "verdict") no_field))))

abbrev result : Json
result = array (
    to_items (
      str "s1"
      ∷ str "Sum"
      ∷ unsigned 1
      ∷ str "ACCEPTED"
      ∷ unsigned 0
      ∷ integer (pos 2)
      ∷ integer (pos 0)
      ∷ integer (pos 0)
      ∷ []))

abbrev result_insertion : Json
result_insertion = object (
    field "op_type" (integer (pos 1)) (
      field "sql" (str insert_result)
        (field "data_key" (str "s11") (field "param_array" (str "result") no_field))))

-- A submission, and its insertion.
abbrev submission : Json
submission = object (
    field "username" (str "ann") (
      field "problem_title" (str "Sum") (
        field "source_code" (str "int main() {}")
          (field "submission_id" (str "u1") (field "language" (integer (pos 1)) no_field)))))

abbrev pending_values : Json
pending_values = array (
    to_items
      (str "u1" ∷ str "ann" ∷ str "Sum" ∷ str "C++" ∷ str "int main() {}" ∷ str "PENDING" ∷ []))

abbrev submission_insertion : Json
submission_insertion = object (
    field "op_type" (integer (pos 1)) (
      field "sql" (str insert_submission)
        (field "data_key" (str "u1") (field "param_array" (str "pending_values") no_field))))

-- The values that can be written, with their texts.
abbrev texts : List (String × Json)
texts =
    ("params", array (to_items params))
    ∷ ("message", message)
    ∷ ("registration", registration)
    ∷ ("failure", failure)
    ∷ ("test_case", test_case)
    ∷ ("ann", ann_json)
    ∷ ("insertion", insertion)
    ∷ ("submission", submission)
    ∷ ("pending_values", pending_values)
    ∷ ("submission_insertion", submission_insertion)
    ∷ ("verdict", verdict)
    ∷ ("verdict_update", verdict_update)
    ∷ ("result", result)
    ∷ ("result_insertion", result_insertion)
    ∷ []

abbrev dump : List (String × Json) → Json → Option String
dump [] j = none
dump ((t, d) ∷ rest) j = if json_eq j d then some t else dump rest j

abbrev has_text : String → List (String × Json) → Bool
has_text s [] = false
has_text s ((t, d) ∷ rest) = str_eq t s || has_text s rest

abbrev distinct : List (String × Json) → Bool
distinct [] = true
distinct ((t, d) ∷ rest) = not (has_text t rest) && distinct rest

abbrev pub json_lib : JsonLib ℕ
json_lib = record {
  Json = Json;
  null = null;
  bool = bool;
  str = str;
  integer = integer;
  unsigned = unsigned;
  real = real;
  array = λ l. array (to_items l);
  object = λ l. object (to_fields l);
  find = find;
  get_string = get_string;
  get_int = get_int;
  get_uint = get_uint;
  get_real = get_real;
  kind = kind;
  items = λ j. elim j [ array l ↦ from_items l | _ ↦ [] ];
  dump = dump texts;
  parse = λ s. find_key s texts;
  is_finite = λ x. true;
  is_plain = λ j. true;
}

find-object :
    (k : String) (fields : List (String × Json))
    → find_field k (to_fields fields) ≡ find_key k fields
find-object k [] = refl
find-object k ((j, v) ∷ rest) = ground (arith, find-object k rest)

has_text-dump :
    (l : List (String × Json)) (j : Json) (s : String) → dump l j ≡ some s → has_text s l ≡ true
has_text-dump [] j s h = cc
has_text-dump ((t, d) ∷ rest) j s h = ground (arith, has_text-dump rest j s, eq_iff t s)

parse-dump :
    (l : List (String × Json)) (j : Json) (s : String)
    → distinct l ≡ true
    → dump l j ≡ some s
    → find_key s l ≡ some j
parse-dump [] j s u h = cc
parse-dump ((t, d) ∷ rest) j s u h = elim (Bool-cases (json_eq j d)) [
  | inl e ↦ ground (arith, e, h, json_eq-eq j d e, eq_iff t s)
  | inr e ↦
      let later : dump rest j ≡ some s = ground (arith, e, h) in
      let here = has_text-dump rest j s later in
      elim (Bool-cases (str_eq t s)) [
        | inl q ↦
            let same = ap (λ x. has_text x rest) ((eq_iff t s).0 q) in
            absurd (ground (arith, same, here, u))
        | inr q ↦ rw q (parse-dump rest j s (ground (arith, u)) later)
      ]
]

get_string-kind : (j : Json) (s : String) → get_string j ≡ some s → kind j ≡ Kind.string s
get_string-kind (str t) s h = ground (arith, h)
get_string-kind _ s h = cc

pub json_laws : JsonLaws json_lib
json_laws = record {
  find-object = find-object;
  get_string-str = λ s. refl;
  get_int-integer = λ n h. refl;
  get_uint-unsigned = λ n h. refl;
  get_real-real = λ x. refl;
  find-null = λ k. refl;
  get_string-kind = get_string-kind;
  kind-null = refl;
  kind-bool = λ b. refl;
  kind-integer = λ n. refl;
  kind-real = λ x. refl;
  kind-str = λ s. refl;
  kind-unsigned = λ n h. refl;
  items-array = items-array;
  is_plain-null = refl;
  is_plain-bool = λ b. refl;
  is_plain-str = λ s. refl;
  is_plain-integer = λ n. refl;
  is_plain-unsigned = λ n. refl;
  is_plain-real = λ x h. refl;
  is_plain-array = λ l h. refl;
  is_plain-object = λ l h. refl;
  parse-dump = λ j s p h. parse-dump texts j s refl h;
}
