-- ===== src/Client/Connection.antt =====
-- The members of `connection` and of `socket_connection`.
use mysql_asio.Base.{ℕ, List, Option, some}
use mysql_asio.Base.Error.{ErrorCode, ErrorInfo, conditional_clear}
use mysql_asio.Auth.Digest.{Digests}
use mysql_asio.Messages.Common.{com_query_packet, quit_packet}
use mysql_asio.Messages.Statement.{ComStmtPrepareOkPacket}
use mysql_asio.Values.{Calendar}
use mysql_asio.Values.Text.{TextLibrary, deserialize_text_row}
use mysql_asio.Resultset.{Resultset}
use mysql_asio.Algorithms.{MessageLayer, ◌>>=◌}
use mysql_asio.Algorithms.Execute.{Executed, execute_query}
use mysql_asio.Algorithms.Prepare.{Prepared, prepare_statement}
use mysql_asio.Algorithms.Connection.{quit_connection, close_connection, connect}
use mysql_asio.Algorithms.Handshake.Params.{ConnectionParams}
use mysql_asio.Algorithms.Handshake.{Handshaken, handshake}
use mysql_asio.Algorithms.Async.Execute.{async_execute_generic}
use mysql_asio.Algorithms.Async.Handshake.{async_handshake}
use mysql_asio.Algorithms.Async.Connect.{async_connect, told_by}
use mysql_asio.Algorithms.Async.Close.{async_close_connection}
use mysql_asio.Client.{Outcome, new_error_block, check, clear_errors, checked_write, completion}

module _ (digests : Digests) {C : Type 0} (layer : MessageLayer C) where
  unfoldable pub connection_handshake :
      ℕ → ConnectionParams → ErrorCode → ErrorInfo → C → Option (Handshaken C)
  connection_handshake fuel params code info c =
      (let (_, info') = clear_errors code info in handshake digests layer fuel params info' c)

  unfoldable pub connection_handshake_or_throw :
      ℕ → ConnectionParams → C → Option (Outcome Unit × C)
  connection_handshake_or_throw fuel params c = do
    let blk = new_error_block
    r ← connection_handshake fuel params blk.code blk.info c
    some (check (record { code = r.code; info = r.info }) tt, r.channel)

  unfoldable pub connection_async_handshake :
      ℕ → ConnectionParams → Option ErrorInfo → C → Option ((ErrorCode × Option ErrorInfo) × C)
  connection_async_handshake calls params info c = do
    ((code, message), c') ← async_handshake digests layer calls params c
    some ((code, told_by (conditional_clear info) message), c')

  -- `socket_connection::connect`; the endpoint and the stream's connection are one parameter.
  unfoldable pub connection_connect :
      (C → ErrorCode × C) → ℕ → ConnectionParams → ErrorCode → ErrorInfo → C → Option (Handshaken C)
  connection_connect connect_to fuel params code info c =
      (let (_, info') = clear_errors code info in
        connect layer digests connect_to fuel params info' c)

  unfoldable pub connection_connect_or_throw :
      (C → ErrorCode × C) → ℕ → ConnectionParams → C → Option (Outcome Unit × C)
  connection_connect_or_throw connect_to fuel params c = do
    let blk = new_error_block
    r ← connect layer digests connect_to fuel params blk.info c
    some (check (record { code = r.code; info = r.info }) tt, r.channel)

  unfoldable pub connection_async_connect :
      (C → ErrorCode × C)
      → ℕ
      → ConnectionParams
      → Option ErrorInfo
      → C
      → Option (ErrorCode × Option ErrorInfo × C)
  connection_async_connect connect_to calls params info c =
      async_connect digests layer connect_to params calls (conditional_clear info) c

module _ {C : Type 0} (layer : MessageLayer C) where
  -- `detail::async_execute_query`
  unfoldable pub async_execute_query :
      ℕ
      → TextLibrary
      → Calendar
      → List ℕ
      → C
      → Option ((ErrorCode × ErrorInfo × Option Resultset) × C)
  async_execute_query calls lib cal query c =
      async_execute_generic layer calls (deserialize_text_row lib cal) com_query_packet query c

  -- The resultset `none` is the default one.
  unfoldable pub connection_query :
      TextLibrary → Calendar → List ℕ → ErrorCode → ErrorInfo → C → Option (Executed C)
  connection_query lib cal query code info c =
      (let (_, info') = clear_errors code info in execute_query layer lib cal query info' c)

  unfoldable pub connection_query_or_throw :
      TextLibrary → Calendar → List ℕ → C → Option (Outcome (Option Resultset) × C)
  connection_query_or_throw lib cal query c = do
    let blk = new_error_block
    r ← execute_query layer lib cal query blk.info c
    some (check (record { code = r.code; info = r.info }) r.output, r.channel)

  unfoldable pub connection_async_query :
      ℕ
      → TextLibrary
      → Calendar
      → List ℕ
      → Option ErrorInfo
      → C
      → Option ((ErrorCode × Option ErrorInfo × Option Resultset) × C)
  connection_async_query calls lib cal query info c =
      completion info (async_execute_query calls lib cal query c)

  -- The statement `none` is the default one.
  unfoldable pub connection_prepare_statement :
      List ℕ → ErrorCode → ErrorInfo → C → Option (Prepared C)
  connection_prepare_statement statement code info c =
      (let (_, info') = clear_errors code info in prepare_statement layer statement info' c)

  unfoldable pub connection_prepare_statement_or_throw :
      List ℕ → C → Option (Outcome (Option ComStmtPrepareOkPacket) × C)
  connection_prepare_statement_or_throw statement c = do
    let blk = new_error_block
    r ← prepare_statement layer statement blk.info c
    some (check (record { code = r.code; info = r.info }) r.statement, r.channel)

  -- `quit_connection` and `close_connection` do not touch the info.
  unfoldable pub connection_quit : ErrorCode → ErrorInfo → C → Option ((ErrorCode × ErrorInfo) × C)
  connection_quit code info c = do
    let (_, info') = clear_errors code info
    (code', c') ← quit_connection layer c
    some ((code', info'), c')

  unfoldable pub connection_quit_or_throw : C → Option (Outcome Unit × C)
  connection_quit_or_throw c = checked_write new_error_block (quit_connection layer c)

  -- `detail::async_quit_connection`: `compose_quit` and one write.
  unfoldable pub async_quit_connection : C → Option (ErrorCode × C)
  async_quit_connection c =
      layer.write (quit_packet.serialize_ (layer.current_capabilities c) tt)
        (layer.reset_sequence_number c)

  unfoldable pub connection_async_quit :
      Option ErrorInfo → C → Option ((ErrorCode × Option ErrorInfo) × C)
  connection_async_quit info c = do
    (code, c') ← async_quit_connection c
    some ((code, conditional_clear info), c')

  unfoldable pub connection_close : ErrorCode → ErrorInfo → C → Option ((ErrorCode × ErrorInfo) × C)
  connection_close code info c = do
    let (_, info') = clear_errors code info
    (code', c') ← close_connection layer c
    some ((code', info'), c')

  unfoldable pub connection_close_or_throw : C → Option (Outcome Unit × C)
  connection_close_or_throw c = checked_write new_error_block (close_connection layer c)

  unfoldable pub connection_async_close :
      Option ErrorInfo → C → Option ((ErrorCode × Option ErrorInfo) × C)
  connection_async_close info c = do
    (code, c') ← async_close_connection layer c
    some ((code, conditional_clear info), c')
