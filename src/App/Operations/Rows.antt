-- ===== src/App/Operations/Rows.antt =====
-- DbQueryOp::getResult (app/src/dbop/DbQueryOp.cpp): the types of the fields of a row.
use text.Mathlib.Text.{◌==◌ as str_eq}
use oj_backend.Prelude.{
  ◌≡◌, refl, ap, subst, String, Bool, true, false, ◌&&◌, Option, none, some, List, [], ◌∷◌, arith,
  if◌then◌else◌, inl, inr, Bool-cases, eq_refl,
}
use oj_backend.Exceptions.Result.{Result, Error, ok, err, ◌>>=◌}
use oj_backend.Core.Json.{JsonLib, JsonLaws, Kind, string, floating, boolean, nothing, is_integer}
use oj_backend.App.World.{Server, Field, Column, ColumnType, ResultSet}
use oj_backend.App.Operations.{value_of, field_value, row_fields, row_json, get_result}

abbrev is_string : {F : Type 0} → Kind F → Bool
is_string (string _) = true
is_string _ = false

abbrev is_floating : {F : Type 0} → Kind F → Bool
is_floating (floating _) = true
is_floating _ = false

abbrev is_boolean : {F : Type 0} → Kind F → Bool
is_boolean (boolean _) = true
is_boolean _ = false

abbrev is_nothing : {F : Type 0} → Kind F → Bool
is_nothing nothing = true
is_nothing _ = false

-- The JSON values that belong to the type of a column. A JSON column has any.
abbrev pub has_kind : {F : Type 0} → ColumnType → Kind F → Bool
has_kind ColumnType.bit k = is_boolean k
has_kind ColumnType.tinyint k = is_boolean k
has_kind ColumnType.smallint k = is_integer k
has_kind ColumnType.mediumint k = is_integer k
has_kind ColumnType.integer k = is_integer k
has_kind ColumnType.bigint k = is_integer k
has_kind ColumnType.real k = is_floating k
has_kind ColumnType.double k = is_floating k
has_kind ColumnType.decimal k = is_floating k
has_kind ColumnType.numeric k = is_floating k
has_kind ColumnType.json k = true
has_kind ColumnType.other k = is_string k

bind-eq-ok :
    {A B : Type 0} (r : Result A) (rest : A → Result B) {b : B}
    → (r >>= rest) ≡ ok b
    → (a : A) × (r ≡ ok a) × (rest a ≡ ok b)
bind-eq-ok (err e) rest h = cc
bind-eq-ok (ok a) rest h = (a, refl, h)

ok-eq : {A : Type 0} {a b : A} → ◌≡◌ {A = Result A} (ok a) (ok b) → a ≡ b
ok-eq h = ground (arith, h)

-- The elements of the first list before those of the second one, the last of them first.
abbrev pub onto : {A : Type 0} → List A → List A → List A
onto [] done = done
onto (a ∷ rest) done = onto rest (a ∷ done)

module _ {F : Type 0} (J : JsonLib F) where
  -- The entry of a column has its name and a value of its type, or null for NULL.
  abbrev pub fits : Column → Field F → String × J.Json → Bool
  fits c f (name, v) =
      str_eq c.name name
      && (if f.is_null then is_nothing (J.kind v) else has_kind c.type (J.kind v))

  abbrev pub all_fit : List (Column × Field F) → List (String × J.Json) → Bool
  all_fit [] [] = true
  all_fit ((c, f) ∷ row) (entry ∷ entries) = fits c f entry && all_fit row entries
  all_fit _ _ = false

  module _ (S : Server F) where
    -- The rows that a result is read as: each an object of the entries of its columns, where a later
    -- column of the same name comes first.
    abbrev pub RowsFit : ResultSet F → List J.Json → Type 0
    RowsFit [] [] = Unit
    RowsFit (row ∷ rows) (j ∷ js) =
        ((entries : List (String × J.Json)) × (j ≡ row_json J S (onto entries []))
          × (all_fit row entries ≡ true))
        × RowsFit rows js
    RowsFit _ _ = ⊥

  module _ (S : Server F) (laws : JsonLaws J) where
    read_as-kind :
        (k : Kind F → Bool) (x v : J.Json) → k (J.kind x) ≡ true → ok x ≡ ok v → k (J.kind v) ≡ true
    read_as-kind k x v e h = ground (arith, e, h)

    stod-kind :
        (o : Option F) (v : J.Json)
        → (elim o [ none ↦ err (Error.runtime "stod") | some x ↦ ok (J.real x) ]) ≡ ok v
        → is_floating (J.kind v) ≡ true
    stod-kind none v h = cc
    stod-kind (some x) v h = read_as-kind is_floating (J.real x) v (rw (laws.kind-real x) refl) h

    value_of-kind :
        (t : ColumnType) (f : Field F) (v : J.Json)
        → value_of J S t f ≡ ok v
        → has_kind t (J.kind v) ≡ true
    unfolding value_of
    value_of-kind ColumnType.bit f v h =
        read_as-kind is_boolean _ v (rw (laws.kind-bool f.get_boolean) refl) h
    value_of-kind ColumnType.tinyint f v h =
        read_as-kind is_boolean _ v (rw (laws.kind-bool f.get_boolean) refl) h
    value_of-kind ColumnType.smallint f v h = read_as-kind is_integer _ v (laws.kind-integer _) h
    value_of-kind ColumnType.mediumint f v h = read_as-kind is_integer _ v (laws.kind-integer _) h
    value_of-kind ColumnType.integer f v h = read_as-kind is_integer _ v (laws.kind-integer _) h
    value_of-kind ColumnType.bigint f v h = read_as-kind is_integer _ v (laws.kind-integer _) h
    value_of-kind ColumnType.real f v h =
        read_as-kind is_floating _ v (rw (laws.kind-real f.get_double) refl) h
    value_of-kind ColumnType.double f v h =
        read_as-kind is_floating _ v (rw (laws.kind-real f.get_double) refl) h
    value_of-kind ColumnType.decimal f v h = stod-kind (S.stod f.get_string) v h
    value_of-kind ColumnType.numeric f v h = stod-kind (S.stod f.get_string) v h
    value_of-kind ColumnType.json f v h = refl
    value_of-kind ColumnType.other f v h =
        read_as-kind is_string _ v (rw (laws.kind-str f.get_string) refl) h

    field_value-fits :
        (c : Column) (f : Field F) (v : J.Json)
        → field_value J S c f ≡ ok v
        → fits c f (c.name, v) ≡ true
    unfolding field_value
    field_value-fits c f v h = elim (Bool-cases f.is_null) [
      | inl e ↦
          rw (eq_refl c.name, e)
            (read_as-kind is_nothing J.null v (rw laws.kind-null refl) (ground (arith, e, h)))
      | inr e ↦ rw (eq_refl c.name, e) (value_of-kind c.type f v (ground (arith, e, h)))
    ]

    -- The fields of a row, column by column, and those that were there before.
    row_fields-fit :
        (done : List (String × J.Json)) (row : List (Column × Field F))
        {out : List (String × J.Json)}
        → row_fields J S done row ≡ ok out
        → (entries : List (String × J.Json)) × (out ≡ onto entries done)
          × (all_fit row entries ≡ true)
    unfolding row_fields
    row_fields-fit done [] h = ([], ground (arith, h), refl)
    row_fields-fit done ((c, f) ∷ rest) {out} h =
        let (v, read, more) =
          bind-eq-ok (field_value J S c f) (λ v. row_fields J S ((c.name, v) ∷ done) rest) h in
        let (entries, e, fit) = row_fields-fit ((c.name, v) ∷ done) rest more in
        ((c.name, v) ∷ entries, e, rw (field_value-fits c f v read) fit)

    -- With the JSON library as documented, getResult types its rows: it makes one object for each
    -- row, with one entry for each column, which has the name of the column and a value of the type
    -- that belongs to the type of the column, or null for NULL.
    pub get_result-fit :
        (rows : ResultSet F) {js : List J.Json} → get_result J S rows ≡ ok js → RowsFit S rows js
    unfolding get_result
    get_result-fit [] {js} h = subst (RowsFit S []) (ok-eq h) tt
    get_result-fit (row ∷ rows) {js} h =
        let (fields, e, h1) =
          bind-eq-ok (row_fields J S [] row)
            (λ fields. get_result J S rows >>= λ rest. ok (row_json J S fields ∷ rest)) h in
        let (rest, e', h2) =
          bind-eq-ok (get_result J S rows) (λ rest. ok (row_json J S fields ∷ rest)) h1 in
        let (entries, same, fit) = row_fields-fit [] row e in
        subst (RowsFit S (row ∷ rows)) (ok-eq h2)
          ((entries, ap (row_json J S) same, fit), get_result-fit rows e')
