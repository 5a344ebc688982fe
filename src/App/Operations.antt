-- ===== src/App/Operations.antt =====
-- app/src/dbop: a statement with its parameters, and the rows of a query as JSON; and
-- DbManager::query (app/src/DbManager.cpp).
pub mod Bindings
pub mod Rows
use oj_backend.Prelude.{
  ℕ, ◌-◌, ◌%◌, ℤ, pos, negsuc, to_int32, u32_mod, String, Option, none, some, List, [], ◌∷◌,
  if◌then◌else◌,
}
use oj_backend.Exceptions.Result.{Result, Error, ParameterError, ok, err, ◌>>=◌}
use oj_backend.Core.Json.{JsonLib, Kind}
use oj_backend.App.World.{Server, Binding, Field, Column, ColumnType, ResultSet}
use oj_backend.App.Monad.{Act}

-- app/include/dbop/DbOperation.hpp; `other` is what `static_cast` makes of another int
pub data OpType : Type 0 where
  invalid_op insert update delete query : OpType
  other : ℤ → OpType

-- The 32 low bits of a signed number, as `get<int>()` keeps them.
unfoldable pub narrow_int : ℤ → ℤ
narrow_int (pos n) = to_int32 n
narrow_int (negsuc n) = to_int32 (u32_mod - 1 - n % u32_mod)

unfoldable pub bind_kind : {F : Type 0} → Kind F → Result (Binding F)
unfolding narrow_int
bind_kind (Kind.string s) = ok (Binding.set_string s)
bind_kind (Kind.signed n) = ok (Binding.set_int (narrow_int n))
bind_kind (Kind.natural n) = ok (Binding.set_int (to_int32 n))
bind_kind (Kind.floating x) = ok (Binding.set_double x)
bind_kind (Kind.boolean b) = ok (Binding.set_boolean b)
bind_kind Kind.nothing = ok Binding.set_null
bind_kind Kind.compound =
    err (
      Error.parameter ParameterError.value_error "Parameters"
        "Unknown parameter type or value type")

module _ {F : Type 0} (J : JsonLib F) where
  -- DbOperation::setSqlVariables
  unfoldable pub set_sql_variables : List J.Json → Result (List (Binding F))
  set_sql_variables [] = ok []
  set_sql_variables (param ∷ rest) = do
    b ← bind_kind (J.kind param)
    bs ← set_sql_variables rest
    ok (b ∷ bs)

  module _ (S : Server F) where
    -- The switch of DbQueryOp::getResult on the type of a column.
    unfoldable pub value_of : ColumnType → Field F → Result J.Json
    value_of ColumnType.bit f = ok (J.bool f.get_boolean)
    value_of ColumnType.tinyint f = ok (J.bool f.get_boolean)
    value_of ColumnType.smallint f = ok (J.integer f.get_int)
    value_of ColumnType.mediumint f = ok (J.integer f.get_int)
    value_of ColumnType.integer f = ok (J.integer f.get_int)
    value_of ColumnType.bigint f = ok (J.integer f.get_int64)
    value_of ColumnType.real f = ok (J.real f.get_double)
    value_of ColumnType.double f = ok (J.real f.get_double)
    value_of ColumnType.decimal f = elim (S.stod f.get_string) [
      | none ↦ err (Error.runtime "stod")
      | some x ↦ ok (J.real x)
    ]
    value_of ColumnType.numeric f = elim (S.stod f.get_string) [
      | none ↦ err (Error.runtime "stod")
      | some x ↦ ok (J.real x)
    ]
    value_of ColumnType.json f = elim (J.parse f.get_string) [
      | none ↦ ok (J.str f.get_string)
      | some j ↦ ok j
    ]
    value_of ColumnType.other f = ok (J.str f.get_string)

    unfoldable pub field_value : Column → Field F → Result J.Json
    unfolding value_of
    field_value c f = if f.is_null then ok J.null else value_of c.type f

    -- The columns of a row. A later column of the same name wins: it comes first.
    unfoldable pub row_fields :
        List (String × J.Json) → List (Column × Field F) → Result (List (String × J.Json))
    row_fields done [] = ok done
    row_fields done ((c, f) ∷ rest) = field_value c f >>= λ v. row_fields ((c.name, v) ∷ done) rest

    -- A row with no column stays null.
    unfoldable pub row_json : List (String × J.Json) → J.Json
    row_json [] = J.null
    row_json (f ∷ fs) = J.object (f ∷ fs)

    -- DbQueryOp::getResult
    unfoldable pub get_result : ResultSet F → Result (List J.Json)
    unfolding row_fields row_json
    get_result [] = ok []
    get_result (row ∷ rest) = do
      fields ← row_fields [] row
      rows ← get_result rest
      ok (row_json fields ∷ rows)

    -- getResult reads the result through a pointer, which a failed statement left null.
    unfoldable pub read_result : Option (ResultSet F) × S.World → Result (List J.Json) × S.World
    unfolding get_result
    read_result (none, w) = (err (Error.undefined "getResult without a result"), w)
    read_result (some rows, w) = (get_result rows, w)

    -- DbManager::query of a DbQueryOp. execute catches the exceptions of the operation.
    unfoldable pub query_db : String → List J.Json → Act S.World (List J.Json)
    unfolding read_result set_sql_variables
    query_db sql params w = elim (set_sql_variables params) [
      | err e ↦ (err (Error.undefined "getResult without a result"), w)
      | ok bindings ↦ read_result (S.execute_query sql bindings w)
    ]
