-- ===== src/App/Subscriber.antt =====
-- Application::processDbOperateEvent (app/src/Application.cpp): the subscriber of the messages,
-- from the text of a message to the statement.
pub mod Delivery
use oj_backend.Prelude.{String, Option, none, some, List}
use oj_backend.Exceptions.Result.{Result, Error, ok, err}
use oj_backend.Core.Json.{JsonLib}
use oj_backend.App.World.{Server, Binding}
use oj_backend.App.Monad.{Act, lift, catching, ◌>>=◌}
use oj_backend.App.Operations.{set_sql_variables}
use oj_backend.App.Messages.{
  DbOperateMessage, DbOpKind, db_insert_op, db_query_op, db_update_op, make_db_op, deserialize,
}

module _ {F : Type 0} (J : JsonLib F) (S : Server F) where
  -- An SQLException is caught where the statement runs, after the rollback.
  abbrev statement_done : {A : Type 0} → Option A × S.World → Result (Unit {0}) × S.World
  statement_done (r, w) = (ok tt, w)

  -- DbOperation::operator() and DbQueryOp::operator(), from the parameters on.
  unfoldable pub run_statement : DbOpKind → String → List (Binding F) → Act S.World (Unit {0})
  run_statement db_query_op sql bindings w = statement_done (S.execute_query sql bindings w)
  run_statement _ sql bindings w = statement_done (S.execute_statement sql bindings w)

  -- DbManager::execute; it catches the exceptions of the operation.
  unfoldable pub execute_op : DbOpKind → DbOperateMessage J → Act S.World (Unit {0})
  unfolding run_statement
  execute_op kind m w = elim (set_sql_variables J (J.items m.param_array)) [
    | err e ↦ (ok tt, w)
    | ok bindings ↦ run_statement kind m.sql bindings w
  ]

  handling : String → Act S.World (Unit {0})
  unfolding execute_op
  handling text = do
    m ← lift (deserialize J text)
    kind ← lift (make_db_op m.op_type)
    execute_op kind m

  -- The task that Application::processDbOperateEvent queues.
  unfoldable pub process_db_operate_event : String → Act S.World (Unit {0})
  unfolding handling
  process_db_operate_event text = catching (handling text) (λ _. tt)
