-- ===== src/Algorithms/Prepare.antt =====
-- prepare_statement.hpp and close_statement.hpp, and the operations of include/boost/mysql's
-- prepared_statement that check their arguments.
pub mod Replies
use mysql_asio.Base.{
  ℕ, zero, suc, ◌+◌, Bool, List, [], ◌∷◌, Option, none, some, ◌==◌, not, length, if◌then◌else◌,
}
use mysql_asio.Base.Error.{
  Result, ok, err, ErrorCode, ErrorInfo, success, failed, make_error_code, protocol_value_error,
  wrong_num_params,
}
use mysql_asio.Serialization.Message.{deserialize_message, deserialize_message_type}
use mysql_asio.Messages.Common.{process_error_packet}
use mysql_asio.Messages.Statement.{
  ComStmtPrepareOkPacket, com_stmt_prepare_packet, deserialize_prepare_ok, com_stmt_close_packet,
}
use mysql_asio.Values.{Variant, Calendar}
use mysql_asio.Resultset.{error_packet_header}
use mysql_asio.Algorithms.{MessageLayer, ◌>>=◌}
use mysql_asio.Algorithms.Execute.{Executed, execute_statement}

-- A default `com_stmt_prepare_ok_packet`.
abbrev pub empty_prepare_ok : ComStmtPrepareOkPacket
empty_prepare_ok = record { statement_id = 0; num_columns = 0; num_params = 0; warning_count = 0 }

-- `process_response`: the code, the info and `response_`.
abbrev pub prepare_response :
    ErrorInfo → Result ComStmtPrepareOkPacket → ErrorCode × ErrorInfo × ComStmtPrepareOkPacket
prepare_response info (err code) = (code, info, empty_prepare_ok)
prepare_response info (ok packet) = (success, info, packet)

abbrev pub prepare_by_type :
    ErrorInfo → Result (ℕ × List ℕ) → ErrorCode × ErrorInfo × ComStmtPrepareOkPacket
prepare_by_type info (err code) = (code, info, empty_prepare_ok)
prepare_by_type info (ok (msg_type, ctx)) =
    if msg_type == error_packet_header
    then (let (code, message) = process_error_packet ctx info in (code, message, empty_prepare_ok))
    else if not (msg_type == 0)
    then (make_error_code protocol_value_error, info, empty_prepare_ok)
    else prepare_response info (deserialize_message deserialize_prepare_ok ctx)

unfoldable pub process_prepare_response :
    List ℕ → ErrorInfo → ErrorCode × ErrorInfo × ComStmtPrepareOkPacket
process_prepare_response buffer info = prepare_by_type info (deserialize_message_type buffer)

unfoldable pub get_num_metadata_packets : ComStmtPrepareOkPacket → ℕ
get_num_metadata_packets response = response.num_columns + response.num_params

-- What `prepare_statement` leaves; the statement is `none` where the output is as it was.
pub record Prepared (C : Type 0) : Type 0 where
  pub code : ErrorCode
  pub info : ErrorInfo
  pub statement : Option ComStmtPrepareOkPacket
  pub channel : C

abbrev pub unprepared : {C : Type 0} → ErrorCode → ErrorInfo → C → Option (Prepared C)
unprepared code info c = some (record { code = code; info = info; statement = none; channel = c })

module _ {C : Type 0} (layer : MessageLayer C) where
  -- The loop over the metadata, which is read and dropped.
  unfoldable pub skip_metadata : ℕ → ComStmtPrepareOkPacket → ErrorInfo → C → Option (Prepared C)
  skip_metadata zero response info c =
      some (record { code = success; info = info; statement = some response; channel = c })
  skip_metadata (suc remaining) response info c = do
    ((code, buffer), c') ← layer.read c
    let rest = skip_metadata remaining response info c'
    if failed code then unprepared code info c' else rest

  abbrev pub after_prepare_response :
      ErrorCode × ErrorInfo × ComStmtPrepareOkPacket → C → Option (Prepared C)
  after_prepare_response (code, info, response) c =
      if failed code
      then unprepared code info c
      else skip_metadata (get_num_metadata_packets response) response info c

  unfoldable pub prepare_statement : List ℕ → ErrorInfo → C → Option (Prepared C)
  prepare_statement statement info c = do
    let message = com_stmt_prepare_packet.serialize_ (layer.current_capabilities c) statement
    (code, c') ← layer.write message (layer.reset_sequence_number c)
    if failed code then unprepared code info c' else (do
      ((code', buffer), c'') ← layer.read c'
      if failed code'
          then unprepared code' info c''
          else after_prepare_response (process_prepare_response buffer info) c'')

  -- No response is sent back.
  unfoldable pub close_statement : ℕ → C → Option (ErrorCode × C)
  close_statement statement_id c =
      layer.write (com_stmt_close_packet.serialize_ (layer.current_capabilities c) statement_id)
        (layer.reset_sequence_number c)

  -- `prepared_statement::execute` after `clear_errors`, with the check of the number of parameters. The
  -- message that it composes is a parameter.
  unfoldable pub execute :
      Calendar → (ℕ → ℕ → List ℕ) → ComStmtPrepareOkPacket → List Variant → C → Option (Executed C)
  execute cal expected_but_got stmt_msg params c =
      if not (length params == stmt_msg.num_params)
      then some (record {
        code = make_error_code wrong_num_params;
        info = expected_but_got stmt_msg.num_params (length params);
        output = none;
        channel = c;
      })
      else execute_statement layer cal stmt_msg.statement_id params [] c
