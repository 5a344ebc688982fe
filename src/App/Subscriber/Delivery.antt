-- ===== src/App/Subscriber/Delivery.antt =====
-- From the service that publishes a write to the statement that the subscriber runs.
use oj_backend.Prelude.{String, ◌≡◌, refl, ap, ◌∙◌, true, false, Bool, List, ℤ, pos, all}
use oj_backend.Exceptions.Result.{ok}
use oj_backend.Core.Json.{JsonLib, JsonLaws, fits_int}
use oj_backend.App.World.{Server, Binding}
use oj_backend.App.Monad.{caught, lift}
use oj_backend.App.Monad.Inversion.{>>=-ok}
use oj_backend.App.Operations.{insert, set_sql_variables}
use oj_backend.App.Operations.Bindings.{is_scalar, AllStandFor, set_sql_variables_binds}
use oj_backend.App.Messages.{
  DbOperateMessage, DbOpKind, db_insert_op, db_query_op, db_update_op, make_db_op, op_of_int,
  serialize, deserialize,
}
use oj_backend.App.Messages.Transport.{message_round_trip}
use oj_backend.App.Subscriber.{run_statement, execute_op, handling, process_db_operate_event}

abbrev pub is_query : DbOpKind → Bool
is_query db_query_op = true
is_query _ = false

module _ {F : Type 0} (J : JsonLib F) (laws : JsonLaws J) (S : Server F) where
  run_write :
      (kind : DbOpKind) (sql : String) (bs : List (Binding F)) (w : S.World)
      → is_query kind ≡ false
      → run_statement J S kind sql bs w ≡ (ok tt, (S.execute_statement sql bs w).1)
  unfolding run_statement
  run_write db_insert_op sql bs w h = refl
  run_write db_update_op sql bs w h = refl
  run_write db_query_op sql bs w h = cc

  executed :
      (kind : DbOpKind) (m : DbOperateMessage J) (ps : List J.Json) (bs : List (Binding F))
      (w : S.World)
      → is_query kind ≡ false
      → m.param_array ≡ J.array ps
      → set_sql_variables J ps ≡ ok bs
      → execute_op J S kind m w ≡ (ok tt, (S.execute_statement m.sql bs w).1)
  unfolding execute_op
  executed kind m ps bs w k a b =
      let q : set_sql_variables J (J.items m.param_array) ≡ ok bs =
        ap (λ j. set_sql_variables J (J.items j)) a
        ∙ ap (set_sql_variables J) (laws.items-array ps)
        ∙ b in
      rw (execute_op, q) (run_write kind m.sql bs w k)

  -- A write that a service serialises is run by the subscriber as the same statement, with the
  -- values that its parameters are bound to.
  pub write_delivered :
      (kind : DbOpKind) (m : DbOperateMessage J) (ps : List J.Json) (bs : List (Binding F)) (n : ℤ)
      (w : S.World) {s : String}
      → is_query kind ≡ false
      → m.op_type ≡ op_of_int n
      → fits_int n ≡ true
      → make_db_op m.op_type ≡ ok kind
      → m.param_array ≡ J.array ps
      → all J.is_plain ps ≡ true
      → set_sql_variables J ps ≡ ok bs
      → serialize J m ≡ ok s
      → process_db_operate_event J S s w ≡ (ok tt, (S.execute_statement m.sql bs w).1)
  unfolding process_db_operate_event handling
  write_delivered kind m ps bs n w {s} q o f k a c b h =
      let plain = ap J.is_plain a ∙ laws.is_plain-array ps c in
      let read = message_round_trip J laws m n o f plain h in
      ap (caught (λ _. tt)) (
        >>=-ok (lift (deserialize J s)) _ w read
        ∙ >>=-ok (lift (make_db_op m.op_type)) (λ kind. execute_op J S kind m) w k
        ∙ executed kind m ps bs w q a b)

  -- With the JSON library as documented, an insertion that a service serialises with an array of
  -- scalar parameters, without NaN or infinity, is run by the subscriber as the same statement, with one bound value for each
  -- parameter, in their order: the same text, whole number that fits `int`, floating-point number or
  -- Boolean, or null. No exception leaves the task.
  pub insertion_delivered :
      (m : DbOperateMessage J) (ps : List J.Json) (w : S.World) {s : String}
      → m.op_type ≡ insert
      → m.param_array ≡ J.array ps
      → all (λ p. is_scalar (J.kind p)) ps ≡ true
      → all J.is_plain ps ≡ true
      → serialize J m ≡ ok s
      → (bs : List (Binding F)) × AllStandFor J ps bs
        × (set_sql_variables J ps ≡ ok bs)
        × (process_db_operate_event J S s w ≡ (ok tt, (S.execute_statement m.sql bs w).1))
  insertion_delivered m ps w {s} o a k c h =
      let (bs, b, l, u, t) = set_sql_variables_binds J ps k in
      let read : m.op_type ≡ op_of_int (pos 1) = o ∙ unfold op_of_int in refl in
      let kind : make_db_op m.op_type ≡ ok db_insert_op = unfold make_db_op in rw o refl in
      (bs, t, b, write_delivered db_insert_op m ps bs (pos 1) w refl read refl kind a c b h)
