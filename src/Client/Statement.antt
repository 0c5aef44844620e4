-- ===== src/Client/Statement.antt =====
-- The members of `prepared_statement`, for a statement that is valid.
use mysql_asio.Base.{ℕ, List, Option, none, some, not, ◌==◌, length, if◌then◌else◌}
use mysql_asio.Base.Error.{
  ErrorCode, ErrorInfo, make_error_code, wrong_num_params, conditional_clear, conditional_assign,
}
use mysql_asio.Messages.Statement.{ComStmtPrepareOkPacket, com_stmt_close_packet}
use mysql_asio.Messages.Statement.Laws.{com_stmt_execute_traits}
use mysql_asio.Values.{Variant, Calendar}
use mysql_asio.Values.Row.{deserialize_binary_row}
use mysql_asio.Resultset.{Resultset}
use mysql_asio.Algorithms.{MessageLayer, ◌>>=◌}
use mysql_asio.Algorithms.Execute.{Executed, make_stmt_execute_packet}
use mysql_asio.Algorithms.Prepare.{execute, close_statement}
use mysql_asio.Algorithms.Async.Execute.{async_execute_generic}
use mysql_asio.Client.{Outcome, new_error_block, check, clear_errors, checked_write, completion}

module _ {C : Type 0} (layer : MessageLayer C) where
  -- What the caller's code and info held is cleared: `execute` is what is done from there on.
  unfoldable pub statement_execute :
      Calendar
      → (ℕ → ℕ → List ℕ)
      → ComStmtPrepareOkPacket
      → List Variant
      → ErrorCode
      → ErrorInfo
      → C
      → Option (Executed C)
  statement_execute cal expected_but_got stmt_msg params code info c =
      execute layer cal expected_but_got stmt_msg params c

  unfoldable pub statement_execute_or_throw :
      Calendar
      → (ℕ → ℕ → List ℕ)
      → ComStmtPrepareOkPacket
      → List Variant
      → C
      → Option (Outcome (Option Resultset) × C)
  statement_execute_or_throw cal expected_but_got stmt_msg params c = do
    let blk = new_error_block
    r ← statement_execute cal expected_but_got stmt_msg params blk.code blk.info c
    some (check (record { code = r.code; info = r.info }) r.output, r.channel)

  -- `detail::async_execute_statement`
  unfoldable pub async_execute_statement :
      ℕ → Calendar → ℕ → List Variant → C → Option ((ErrorCode × ErrorInfo × Option Resultset) × C)
  async_execute_statement calls cal statement_id params c =
      async_execute_generic layer calls (deserialize_binary_row cal) (com_stmt_execute_traits cal)
        (make_stmt_execute_packet statement_id params) c

  -- A wrong number of parameters is told by a handler that is posted, and nothing is sent.
  unfoldable pub statement_async_execute :
      ℕ
      → Calendar
      → (ℕ → ℕ → List ℕ)
      → ComStmtPrepareOkPacket
      → List Variant
      → Option ErrorInfo
      → C
      → Option ((ErrorCode × Option ErrorInfo × Option Resultset) × C)
  statement_async_execute calls cal expected_but_got stmt_msg params info c =
      if not (length params == stmt_msg.num_params)
      then some (
        (
          make_error_code wrong_num_params,
          conditional_assign (conditional_clear info)
              (expected_but_got stmt_msg.num_params (length params)),
          none,
        ),
        c,
      )
      else completion info (async_execute_statement calls cal stmt_msg.statement_id params c)

  -- `close_statement` does not touch the info.
  unfoldable pub statement_close :
      ComStmtPrepareOkPacket → ErrorCode → ErrorInfo → C → Option ((ErrorCode × ErrorInfo) × C)
  statement_close stmt_msg code info c = do
    let (_, info') = clear_errors code info
    (code', c') ← close_statement layer stmt_msg.statement_id c
    some ((code', info'), c')

  unfoldable pub statement_close_or_throw : ComStmtPrepareOkPacket → C → Option (Outcome Unit × C)
  statement_close_or_throw stmt_msg c =
      checked_write new_error_block (close_statement layer stmt_msg.statement_id c)

  -- `detail::async_close_statement`
  unfoldable pub async_close_statement : ℕ → C → Option (ErrorCode × C)
  async_close_statement statement_id c =
      layer.write (com_stmt_close_packet.serialize_ (layer.current_capabilities c) statement_id)
        (layer.reset_sequence_number c)

  unfoldable pub statement_async_close :
      ComStmtPrepareOkPacket → Option ErrorInfo → C → Option ((ErrorCode × Option ErrorInfo) × C)
  statement_async_close stmt_msg info c = do
    (code, c') ← async_close_statement stmt_msg.statement_id c
    some ((code, conditional_clear info), c')
