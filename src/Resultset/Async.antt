-- ===== src/Resultset/Async.antt =====
-- The asynchronous fetches: the runs of the coroutines of Resultset.Async.Ops over `Channel.Async`.
pub mod Ops
pub mod Rows
pub mod Many
pub mod Laws
pub mod Tests
use mysql_asio.Resultset.Async.Ops.{
  RowPoint, RowStarted, resume_row, read_row_op, FetchPoint, FetchManyOp, row_received,
  FetchStarted, fetch_head, resume_fetch_many, fetch_many_op, FetchOneOp, resume_fetch_one,
  fetch_one_op, at_start, message_awaited, read_message, row_completed, fetch_start, row_awaited,
  posted, read_row, post, completed,
}
use mysql_asio.Base.{
  ℕ, zero, suc, ◌-◌, Bool, true, false, List, [], ◌∷◌, ◌++◌, Option, none, some, ltb, not, ◌&&◌,
  if◌then◌else◌,
}
use mysql_asio.Base.Error.{
  ErrorCode, ErrorInfo, success, failed, conditional_clear, conditional_assign,
}
use mysql_asio.Values.{Variant}
use mysql_asio.Channel.{Stream, Channel, ReadOutcome}
use mysql_asio.Channel.Async.{async_read}
use mysql_asio.Resultset.{
  ReadRowResult, error, row, eof, RowMessage, row_error, process_read_message, Resultset, complete,
  OwningRow, is_eof, after_message, one_row,
}

-- What an asynchronous fetch leaves.
pub record AsyncFetched (S : Type 0) : Type 0 where
  pub rows : List OwningRow
  pub code : ErrorCode
  pub output_info : Option ErrorInfo
  pub resultset : Resultset
  pub channel : Channel
  pub stream : S

module _ {S : Type 0} (io : Stream S) (fuel : ℕ) where
  abbrev pub RowRead : Type 0
  RowRead = RowMessage × Option ErrorInfo × ReadOutcome S

  -- The outcome of the last read, with which the operation is called.
  abbrev pub perform_row :
      (RowPoint → ReadOutcome S → Option RowRead)
      → Option ErrorInfo
      → ReadOutcome S
      → RowStarted × RowPoint
      → Option RowRead
  perform_row again info out (read_message, point) =
      elim (async_read io fuel out.channel out.stream) [
        | none ↦ none
        | some read ↦ again point read
      ]
  perform_row again info out (row_completed m output_info, point) = some (m, output_info, out)

  unfoldable pub run_row :
      ℕ → Resultset → Option ErrorInfo → RowPoint → ReadOutcome S → Option RowRead
  run_row zero rs info point out = none
  run_row (suc calls) rs info point out =
      perform_row (run_row calls rs info) info out (read_row_op point rs info out.code out.buffer)

  -- Two calls: one starts the read, one completes.
  unfoldable pub async_read_row : Resultset → Option ErrorInfo → Channel → S → Option RowRead
  async_read_row rs info chan s =
      run_row 2 rs info at_start
        (record { code = success; buffer = []; channel = chan; stream = s })

  -- `async_read_row` fills the references that it was given before the operation is called.
  abbrev pub perform_fetch_many :
      (FetchManyOp
        → Option ErrorInfo
        → ErrorCode
        → ReadRowResult
        → Channel
        → S
        → Option (AsyncFetched S))
      → Option ErrorInfo
      → ErrorCode
      → Channel
      → S
      → FetchStarted × FetchManyOp
      → Option (AsyncFetched S)
  perform_fetch_many again info err chan s (read_row, op) =
      elim (async_read_row op.parent_resultset info chan s) [
        | none ↦ none
        | some (m, info', out) ↦
            again
              (record op {
                parent_resultset = record op.parent_resultset { ok_packet = m.ok_packet };
                buffer = out.buffer;
                values = m.values;
              })
              info' m.code m.result out.channel out.stream
      ]
  perform_fetch_many again info err chan s (post, op) = again op info err error chan s
  perform_fetch_many again info err chan s (completed code rows, op) = some (record {
    rows = rows;
    code = code;
    output_info = info;
    resultset = op.parent_resultset;
    channel = chan;
    stream = s;
  })

  unfoldable pub run_fetch_many :
      ℕ
      → FetchManyOp
      → Option ErrorInfo
      → ErrorCode
      → ReadRowResult
      → Channel
      → S
      → Option (AsyncFetched S)
  run_fetch_many zero op info err result chan s = none
  run_fetch_many (suc calls) op info err result chan s =
      perform_fetch_many (run_fetch_many calls) info err chan s (fetch_many_op op err result)

  -- A call for each row, one before them and one behind them.
  unfoldable pub async_fetch_many :
      ℕ → Resultset → Option ErrorInfo → Channel → S → Option (AsyncFetched S)
  async_fetch_many count rs info chan s =
      run_fetch_many (suc (suc count))
        (record {
          point = fetch_start;
          parent_resultset = rs;
          rows = [];
          buffer = [];
          values = [];
          remaining = count;
          cont = false;
        })
        (conditional_clear info) success error chan s

  abbrev pub perform_fetch_one :
      (FetchOneOp
        → Option ErrorInfo
        → ErrorCode
        → ReadRowResult
        → Channel
        → S
        → Option (AsyncFetched S))
      → Option ErrorInfo
      → ErrorCode
      → Channel
      → S
      → FetchStarted × FetchOneOp
      → Option (AsyncFetched S)
  perform_fetch_one again info err chan s (read_row, op) =
      elim (async_read_row op.resultset info chan s) [
        | none ↦ none
        | some (m, info', out) ↦
            again
              (record op {
                resultset = record op.resultset { ok_packet = m.ok_packet };
                current_row = record { values = m.values; buffer = out.buffer };
              })
              info' m.code m.result out.channel out.stream
      ]
  perform_fetch_one again info err chan s (post, op) = again op info success error chan s
  perform_fetch_one again info err chan s (completed code rows, op) = some (record {
    rows = rows;
    code = code;
    output_info = info;
    resultset = op.resultset;
    channel = chan;
    stream = s;
  })

  unfoldable pub run_fetch_one :
      ℕ
      → FetchOneOp
      → Option ErrorInfo
      → ErrorCode
      → ReadRowResult
      → Channel
      → S
      → Option (AsyncFetched S)
  run_fetch_one zero op info err result chan s = none
  run_fetch_one (suc calls) op info err result chan s =
      perform_fetch_one (run_fetch_one calls) info err chan s (fetch_one_op op err result)

  unfoldable pub async_fetch_one :
      Resultset → Option ErrorInfo → OwningRow → Channel → S → Option (AsyncFetched S)
  async_fetch_one rs info current_row chan s =
      run_fetch_one 2 (record { point = fetch_start; resultset = rs; current_row = current_row })
        (conditional_clear info) success error chan s
