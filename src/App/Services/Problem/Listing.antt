-- ===== src/App/Services/Problem/Listing.antt =====
-- ProblemService::getProblemList (app/src/services/ProblemService.cpp) on the rows of the table
-- `problems` (app/db/judgedb.sql), whose column `id` is a BIGINT.
use text.Mathlib.Text.{◌==◌ as str_eq}
use oj_backend.Prelude.{
  ◌≡◌, ◌≢◌, refl, ap, sym, ◌∙◌, String, Bool, true, false, not, ◌&&◌, Option, none, some, List, [],
  ◌∷◌, arith, if◌then◌else◌, inl, inr, Option-cases, eq_iff,
}
use oj_backend.Exceptions.Result.{Result, ok, err}
use oj_backend.Core.Json.{JsonLib, JsonLaws, find_key, is_integer, at_string}
use oj_backend.App.World.{Server, Field, Column, ColumnType, ResultSet}
use oj_backend.App.Monad.{pure, lift, ◌>>=◌}
use oj_backend.App.Monad.Inversion.{>>=-eq-ok}
use oj_backend.App.Operations.{query_db, read_result, get_result, row_json, set_sql_variables}
use oj_backend.App.Operations.Rows.{onto, fits, all_fit, RowsFit, get_result-fit}
use oj_backend.App.Services.{
  Config, ServiceInfo, reply, http_ok, unauthorized, internal_server_error,
}
use oj_backend.App.Redis.{exists, expire}
use oj_backend.App.Services.Problem.{select_problems, problem_entries, listing, get_problem_list}

abbrev is_bigint : ColumnType → Bool
is_bigint ColumnType.bigint = true
is_bigint _ = false

-- The column has another name, or is a BIGINT column, and the field is not NULL.
abbrev id_test : {F : Type 0} → Column → Field F → Bool
id_test c f = if str_eq c.name "id" then is_bigint c.type && not f.is_null else true

abbrev id_number : {F : Type 0} → List (Column × Field F) → Bool
id_number [] = true
id_number ((c, f) ∷ rest) = id_test c f && id_number rest

-- There is a problem, and its columns of the name `id` are BIGINT columns that are not NULL.
abbrev pub HasProblem : {F : Type 0} → ResultSet F → Type 0
HasProblem [] = ⊥
HasProblem (row ∷ rows) = id_number row ≡ true

both : (a b : Bool) → a && b ≡ true → (a ≡ true) × (b ≡ true)
both true b h = (refl, h)
both false b h = cc

conj : (a b : Bool) → a ≡ true → b ≡ true → a && b ≡ true
conj a b h k = ground (arith, h, k)

module _ {F : Type 0} (J : JsonLib F) where
  abbrev numbered : String × J.Json → Bool
  numbered (name, v) = if str_eq name "id" then is_integer (J.kind v) else true

  abbrev all_numbered : List (String × J.Json) → Bool
  all_numbered [] = true
  all_numbered (e ∷ rest) = numbered e && all_numbered rest

  fits-numbered :
      (c : Column) (f : Field F) (name : String) (v : J.Json)
      → fits J c f (name, v) ≡ true
      → id_test c f ≡ true
      → numbered (name, v) ≡ true
  fits-numbered c f name v h k = ground (arith, eq_iff c.name name)

  all_fit-numbered :
      (row : List (Column × Field F)) (entries : List (String × J.Json))
      → all_fit J row entries ≡ true
      → id_number row ≡ true
      → all_numbered entries ≡ true
  all_fit-numbered [] [] h k = refl
  all_fit-numbered [] (e ∷ entries) h k = cc
  all_fit-numbered (cf ∷ row) [] h k = cc
  all_fit-numbered ((c, f) ∷ row) ((name, v) ∷ entries) h k =
      let (here, later) = both (fits J c f (name, v)) (all_fit J row entries) h in
      let (id, ids) = both (id_test c f) (id_number row) k in
      conj (numbered (name, v)) (all_numbered entries) (fits-numbered c f name v here id)
        (all_fit-numbered row entries later ids)

  onto-numbered :
      (entries done : List (String × J.Json))
      → all_numbered entries ≡ true
      → all_numbered done ≡ true
      → all_numbered (onto entries done) ≡ true
  onto-numbered [] done h k = k
  onto-numbered (e ∷ rest) done h k =
      onto-numbered rest (e ∷ done) (ground (arith, h)) (ground (arith, h, k))

  find_key-numbered :
      (fields : List (String × J.Json)) (v : J.Json)
      → all_numbered fields ≡ true
      → find_key "id" fields ≡ some v
      → is_integer (J.kind v) ≡ true
  find_key-numbered [] v h k = cc
  find_key-numbered ((name, x) ∷ rest) v h k = ground (arith, find_key-numbered rest v)

  -- An exception, or a reply with another status than 200.
  abbrev pub NoSuccess : Result (ServiceInfo J) → Type 0
  NoSuccess (err e) = Unit
  NoSuccess (ok r) = r.status ≢ http_ok

  no_success :
      (o : Result (ServiceInfo J))
      → ((r : ServiceInfo J) → o ≡ ok r → r.status ≢ http_ok)
      → NoSuccess o
  no_success (err e) h = tt
  no_success (ok r) h = h r refl

  module _ (S : Server F) (cfg : Config) (laws : JsonLaws J) where
    -- What get<std::string>() makes of a number is an exception.
    number_text : (v : J.Json) {s : String} → is_integer (J.kind v) ≡ true → J.get_string v ≢ some s
    number_text v {s} h g = let k = laws.get_string-kind v s g in absurd (ground (arith, k, h))

    id_text :
        (j : J.Json) (o : Option J.Json) {s : String}
        → J.find j "id" ≡ o
        → ((v : J.Json) → o ≡ some v → is_integer (J.kind v) ≡ true)
        → at_string J j "id" ≢ ok s
    id_text j none e h g = ground (arith, e, g)
    id_text j (some v) {s} e h g =
        let k = h v refl in
        elim (Option-cases (J.get_string v)) [
          | inl n ↦ ground (arith, e, g, n)
          | inr (t, n) ↦ absurd (number_text v {s = t} k n)
        ]

    row_text :
        (fields : List (String × J.Json)) {s : String}
        → all_numbered fields ≡ true
        → at_string J (row_json J S fields) "id" ≢ ok s
    unfolding row_json
    row_text [] {s} h = id_text J.null none {s = s} (laws.find-null "id") (λ v e. cc)
    row_text (f ∷ fs) {s} h =
        id_text (J.object (f ∷ fs)) (find_key "id" (f ∷ fs)) {s = s}
          (laws.find-object "id" (f ∷ fs)) (λ v e. find_key-numbered (f ∷ fs) v h e)

    first_ok :
        {A B : Type 0} (r : Result A) (rest : A → Result B) {b : B}
        → (elim r [ err e ↦ err e | ok a ↦ rest a ]) ≡ ok b
        → (a : A) × (r ≡ ok a)
    first_ok (err e) rest h = cc
    first_ok (ok a) rest h = (a, refl)

    entries_fail :
        (rows : ResultSet F) (js : List J.Json) {es : List J.Json}
        → HasProblem rows
        → RowsFit J S rows js
        → problem_entries J S cfg js ≢ ok es
    unfolding problem_entries
    entries_fail [] js p f h = p
    entries_fail (row ∷ rows) [] p f h = f
    entries_fail (row ∷ rows) (j ∷ js) p ((entries, same, fit), _) h =
        let (text, e) = first_ok (at_string J j "id") _ h in
        row_text (onto entries []) {s = text}
          (onto-numbered entries [] (all_fit-numbered row entries fit p) refl)
          (ap (λ x. at_string J x "id") (sym same) ∙ e)

    read_result-ok :
        (r : Option (ResultSet F) × S.World) {js : List J.Json}
        → (read_result J S r).0 ≡ ok js
        → (rows : ResultSet F) × (r.0 ≡ some rows) × (get_result J S rows ≡ ok js)
    unfolding read_result
    read_result-ok (none, w) h = cc
    read_result-ok (some rows, w) h = (rows, refl, h)

    module _
        (problems : (w : S.World) (rows : ResultSet F)
          → (S.execute_query select_problems [] w).0 ≡ some rows
          → HasProblem rows) where
      listing_fails : (w : S.World) {r : ServiceInfo J} → (listing J S cfg w).0 ≢ ok r
      unfolding listing query_db set_sql_variables
      listing_fails w h =
          let (js, q, h1) = >>=-eq-ok (query_db J S select_problems []) _ w h in
          let (rows, answered, g) = read_result-ok (S.execute_query select_problems [] w) q in
          let (es, e, _) = >>=-eq-ok (lift (problem_entries J S cfg js)) _ _ h1 in
          entries_fail rows js {es = es} (problems w rows answered) (get_result-fit J S laws rows g)
            e

      extended_fails :
          (extended : Bool) (w : S.World) {r : ServiceInfo J}
          → ((if not extended
                then pure (
                    reply J internal_server_error
                      "Authentication  extend failed in [getProblemList]")
                else listing J S cfg)
              w).0
            ≡ ok r
          → r.status ≢ http_ok
      extended_fails false w h s = ground (arith, h, s)
      extended_fails true w h s = listing_fails w h

      known_fails :
          (known : Bool) (token : String) (w : S.World) {r : ServiceInfo J}
          → ((if not known
                then pure (reply J unauthorized "Authentication failed, please login again")
                else (expire S cfg.key_ttl token >>= λ extended.
                    if not extended
                    then pure (
                        reply J internal_server_error
                          "Authentication  extend failed in [getProblemList]")
                    else listing J S cfg))
              w).0
            ≡ ok r
          → r.status ≢ http_ok
      known_fails false token w h s = ground (arith, h, s)
      known_fails true token w {r} h s =
          let (extended, _, h1) = >>=-eq-ok (expire S cfg.key_ttl token) _ w h in
          extended_fails extended (expire S cfg.key_ttl token w).1 {r = r} h1 s

      -- With the JSON library as documented: as long as the table has a problem, whose id is a
      -- number, getProblemList never replies with success, whatever the token: it refuses, or
      -- throws.
      pub problem_list_fails :
          (token : String) (w : S.World) → NoSuccess (get_problem_list J S cfg token w).0
      unfolding get_problem_list
      problem_list_fails token w = no_success (get_problem_list J S cfg token w).0 (λ r h s.
          let (known, _, h1) = >>=-eq-ok (exists S token) _ w h in
          known_fails known token (exists S token w).1 {r = r} h1 s)
