-- ===== src/App/Messages.antt =====
-- DbOperateMessage (app/include/RedisManager.hpp, app/src/RedisManager.cpp): how a write to the
-- database travels from a service to the subscriber, and DbOp::makeDbOp
-- (app/src/dbop/DbOpFactory.cpp), which the subscriber calls.
pub mod Transport
pub mod Sent
use text.Mathlib.Text.{◌==◌ as str_eq}
use oj_backend.Prelude.{
  zero, suc, ℤ, pos, String, Bool, true, false, not, ◌&&◌, Option, none, some, List, [], ◌∷◌,
  if◌then◌else◌,
}
use oj_backend.Exceptions.Result.{Result, Error, ParameterError, ok, err, ◌>>=◌}
use oj_backend.Core.Json.{JsonLib, at_string, at_int, dump_text, parse_text}
use oj_backend.App.World.{Server}
use oj_backend.App.Monad.{Act}
use oj_backend.App.Operations.{OpType, invalid_op, insert, update, delete, query, other}

-- static_cast<DbOpType>
unfoldable pub op_of_int : ℤ → OpType
op_of_int (pos zero) = invalid_op
op_of_int (pos (suc zero)) = insert
op_of_int (pos (suc (suc zero))) = update
op_of_int (pos (suc (suc (suc zero)))) = delete
op_of_int (pos (suc (suc (suc (suc zero))))) = query
op_of_int n = other n

-- static_cast<int>
unfoldable pub op_to_int : OpType → ℤ
op_to_int invalid_op = pos 0
op_to_int insert = pos 1
op_to_int update = pos 2
op_to_int delete = pos 3
op_to_int query = pos 4
op_to_int (other n) = n

abbrev pub is_invalid_op : OpType → Bool
is_invalid_op invalid_op = true
is_invalid_op _ = false

abbrev pub is_empty : String → Bool
is_empty s = str_eq s ""

-- The operation classes that makeDbOp makes.
pub data DbOpKind : Type 0 where
  db_insert_op db_query_op db_update_op : DbOpKind

-- DbOp::makeDbOp, as the class that it makes
unfoldable pub make_db_op : OpType → Result DbOpKind
make_db_op insert = ok db_insert_op
make_db_op query = ok db_query_op
make_db_op update = ok db_update_op
make_db_op _ = err (Error.parameter ParameterError.out_of_range "Op Type" "invalid op type")

module _ {F : Type 0} (J : JsonLib F) where
  pub record DbOperateMessage : Type 0 where
    pub op_type : OpType
    pub sql : String
    pub data_key : String
    pub param_array : J.Json

  abbrev pub message_json : DbOperateMessage → String → J.Json
  message_json m params = J.object (
      ("op_type", J.integer (op_to_int m.op_type))
      ∷ ("sql", J.str m.sql)
      ∷ ("data_key", J.str m.data_key)
      ∷ ("param_array", J.str params)
      ∷ [])

  -- DbOperateMessage::serialize
  unfoldable pub serialize : DbOperateMessage → Result String
  serialize m = do params ← dump_text J m.param_array; dump_text J (message_json m params)

  -- DbOperateMessage::deserialize
  unfoldable pub deserialize : String → Result DbOperateMessage
  deserialize json_str = do
    j ← parse_text J json_str
    op_type ← at_int J j "op_type"
    sql ← at_string J j "sql"
    params ← at_string J j "param_array"
    param_array ← parse_text J params
    data_key ← at_string J j "data_key"
    ok (record {
      op_type = op_of_int op_type;
      sql = sql;
      data_key = data_key;
      param_array = param_array;
    })

  -- DbOperateMessage::isValid
  unfoldable pub is_valid : DbOperateMessage → Bool
  is_valid m = not (is_invalid_op m.op_type) && (not (is_empty m.sql) && not (is_empty m.data_key))

  module _ (S : Server F) where
    abbrev pub published : Option (Unit {0}) × S.World → Result (Unit {0}) × S.World
    published (some u, w) = (ok tt, w)
    published (none, w) = (err (Error.system (S.errno w) "Redis publish error"), w)

    -- What is sent, once it has been serialised; an error of the serialisation passes.
    abbrev pub send : String → Result String → Act S.World (Unit {0})
    send channel (err e) w = (err e, w)
    send channel (ok text) w = published (S.redis_publish channel text w)

    -- RedisManager::publishDbOperate, with DB_OPERATE_CHANNEL
    unfoldable pub publish_db_operate : String → DbOperateMessage → Act S.World (Unit {0})
    unfolding is_valid
    publish_db_operate channel m w =
        if is_valid m
        then send channel (serialize m) w
        else (err (Error.system (S.errno w) "Invalid message structure"), w)
