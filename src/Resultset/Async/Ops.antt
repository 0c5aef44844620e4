-- ===== src/Resultset/Async/Ops.antt =====
-- The coroutines `read_row_op` of impl/read_row.hpp, and `fetch_one_op` and `fetch_many_op` of
-- impl/resultset.hpp. The pointer to an error info may be null.
use mysql_asio.Base.{
  false, ℕ, ◌-◌, Bool, true, List, [], ◌∷◌, ◌++◌, Option, ltb, not, ◌&&◌, if◌then◌else◌,
}
use mysql_asio.Base.Error.{ErrorCode, ErrorInfo, success, failed, conditional_assign}
use mysql_asio.Values.{Variant}
use mysql_asio.Resultset.{
  ReadRowResult, error, row, eof, RowMessage, row_error, process_read_message, Resultset, complete,
  OwningRow, is_eof, one_row,
}

-- `read_row_op` waits for one message.
pub data RowPoint : Type 0 where
  at_start message_awaited : RowPoint

pub data RowStarted : Type 0 where
  read_message : RowStarted
  row_completed : RowMessage → Option ErrorInfo → RowStarted

-- The error info is a local variable that is assigned to the caller's, if there is one.
abbrev pub resume_row : RowPoint → Resultset → Option ErrorInfo → List ℕ → RowStarted × RowPoint
resume_row at_start rs output_info buffer = (read_message, message_awaited)
resume_row message_awaited rs output_info buffer =
    let m = process_read_message rs.deserializer rs.meta buffer rs.ok_packet [] in
    (row_completed m (conditional_assign output_info m.info), message_awaited)

unfoldable pub read_row_op :
    RowPoint → Resultset → Option ErrorInfo → ErrorCode → List ℕ → RowStarted × RowPoint
read_row_op point rs output_info code buffer =
    if failed code
    then (row_completed (row_error code rs.ok_packet []) output_info, point)
    else resume_row point rs output_info buffer

-- The members of `fetch_many_op` and of its `fetch_many_op_impl`.
pub data FetchPoint : Type 0 where
  fetch_start row_awaited posted : FetchPoint

pub record FetchManyOp : Type 0 where
  pub point : FetchPoint
  pub parent_resultset : Resultset
  pub rows : List OwningRow
  pub buffer : List ℕ
  pub values : List Variant
  pub remaining : ℕ
  pub cont : Bool

unfoldable pub row_received : FetchManyOp → FetchManyOp
row_received op = record op {
  rows = op.rows ++ (record { values = op.values; buffer = op.buffer } ∷ []);
  values = [];
  buffer = [];
  remaining = op.remaining - 1;
}

pub data FetchStarted : Type 0 where
  read_row post : FetchStarted
  completed : ErrorCode → List OwningRow → FetchStarted

-- The loop's condition, and what follows the loop: without a row, the completion is posted.
unfoldable pub fetch_head : FetchManyOp → ErrorCode → FetchStarted × FetchManyOp
fetch_head op err =
    if not (complete op.parent_resultset) && ltb 0 op.remaining
    then (read_row, record op { point = row_awaited; cont = true })
    else if not op.cont
    then (post, record op { point = posted })
    else (completed err op.rows, op)

-- At the end the buffer of the operation holds the OK packet's info, and goes with the operation.
abbrev pub resume_fetch_many :
    FetchPoint → FetchManyOp → ErrorCode → ReadRowResult → FetchStarted × FetchManyOp
resume_fetch_many fetch_start op err result = fetch_head op err
resume_fetch_many row_awaited op err error = (completed err op.rows, op)
resume_fetch_many row_awaited op err eof =
    fetch_head
      (record op {
        parent_resultset = record op.parent_resultset { eof_received = true; info_held = false };
      })
      err
resume_fetch_many row_awaited op err row = fetch_head (row_received op) err
resume_fetch_many posted op err result = (completed err op.rows, op)

unfoldable pub fetch_many_op : FetchManyOp → ErrorCode → ReadRowResult → FetchStarted × FetchManyOp
fetch_many_op op err result = resume_fetch_many op.point op err result

-- `fetch_one_op`: its member is the resultset, with the row's buffer and values.
pub record FetchOneOp : Type 0 where
  pub point : FetchPoint
  pub resultset : Resultset
  pub current_row : OwningRow

abbrev pub resume_fetch_one :
    FetchPoint → FetchOneOp → ErrorCode → ReadRowResult → FetchStarted × FetchOneOp
resume_fetch_one fetch_start op err result =
    if complete op.resultset
    then (post, record op { point = posted })
    else (read_row, record op { point = row_awaited })
resume_fetch_one row_awaited op err result = (
  completed err (one_row result op.current_row),
  record op { resultset = record op.resultset { eof_received = is_eof result } },
)
resume_fetch_one posted op err result = (completed success [], op)

unfoldable pub fetch_one_op : FetchOneOp → ErrorCode → ReadRowResult → FetchStarted × FetchOneOp
fetch_one_op op err result = resume_fetch_one op.point op err result
