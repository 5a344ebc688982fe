-- ===== src/Tests/Rows.antt =====
-- The theorems on the rows of a query (app/src/dbop/DbQueryOp.cpp) at a row of the table of the
-- problems.
use oj_backend.Prelude.{ℕ, ◌≡◌, refl, subst, pos, true, false, Option, some, List, [], ◌∷◌, arith}
use oj_backend.App.World.{Server, Field, Column, ColumnType}
use oj_backend.App.Operations.{get_result, row_fields, field_value, value_of, row_json}
use oj_backend.App.Operations.Rows.{RowsFit, get_result-fit}
use oj_backend.App.Services.Problem.{get_problem_list}
use oj_backend.App.Services.Problem.Listing.{HasProblem, NoSuccess, problem_list_fails}
use oj_backend.Tests.Values.{json_lib, json_laws, object, field, integer, no_field}
use oj_backend.Tests.Machine.{server, start}
use oj_backend.Tests.Services.{config}

some-eq : {A : Type 0} {a b : A} → ◌≡◌ {A = Option A} (some a) (some b) → a ≡ b
some-eq h = ground (arith, h)

-- A row of the table of the problems, and a server whose database has it.
abbrev problem_row : List (Column × Field ℕ)
problem_row =
    (
      record { name = "id"; type = ColumnType.bigint },
      record {
        is_null = false;
        get_boolean = true;
        get_int = pos 1;
        get_int64 = pos 1;
        get_double = 1;
        get_string = "1";
      },
    )
    ∷ []

abbrev with_problem : Server ℕ
with_problem = record server { execute_query = λ sql bindings w. (some (problem_row ∷ []), w) }

problem_list_fails_example :
    NoSuccess json_lib (get_problem_list json_lib with_problem config "active:u1" start).0
problem_list_fails_example =
    problem_list_fails json_lib with_problem config json_laws
      (λ w rows h. subst HasProblem (some-eq h) refl) "active:u1" start

get_result-fit_example :
    RowsFit json_lib server (problem_row ∷ []) (object (field "id" (integer (pos 1)) no_field) ∷ [])
unfolding get_result row_fields field_value value_of row_json
get_result-fit_example = get_result-fit json_lib server json_laws (problem_row ∷ []) refl
