-- ===== src/Algorithms/Execute.antt =====
-- execute_generic, with execute_query and execute_statement: a request, the server's answer to it, and
-- the definitions of the columns.
pub mod Responses
pub mod Replies
use mysql_asio.Base.{
  ℕ, zero, suc, Bool, true, false, List, [], ◌∷◌, ◌++◌, Option, none, some, ◌==◌, if◌then◌else◌,
}
use mysql_asio.Base.Error.{
  Result, ok, err, ErrorCode, ErrorInfo, success, failed, make_error_code, protocol_value_error,
}
use mysql_asio.Serialization.{rewind, deserialize_int_lenenc}
use mysql_asio.Serialization.Message.{
  SerializationTraits, deserialize_message, deserialize_message_type,
}
use mysql_asio.Messages.Common.{
  OkPacket, empty_ok_packet, deserialize_ok_packet, process_error_packet,
  deserialize_column_definition_packet, com_query_packet,
}
use mysql_asio.Messages.Statement.{ComStmtExecutePacket}
use mysql_asio.Messages.Statement.Laws.{com_stmt_execute_traits}
use mysql_asio.Metadata.{FieldMetadata}
use mysql_asio.Values.{Variant, Calendar}
use mysql_asio.Values.Row.{deserialize_binary_row}
use mysql_asio.Values.Text.{TextLibrary, deserialize_text_row}
use mysql_asio.Resultset.{DeserializeRowFn, Resultset, error_packet_header}
use mysql_asio.Algorithms.{MessageLayer, ◌>>=◌}

abbrev pub ok_packet_header : ℕ
ok_packet_header = 0x00

-- The members of `execute_processor`, but for the channel.
pub record ExecuteProcessor : Type 0 where
  pub deserializer : DeserializeRowFn
  pub buffer : List ℕ
  pub field_count : ℕ
  pub ok_packet : OkPacket
  pub fields : List FieldMetadata
  pub field_buffers : List (List ℕ)

abbrev pub new_processor : DeserializeRowFn → ExecuteProcessor
new_processor deserializer = record {
  deserializer = deserializer;
  buffer = [];
  field_count = 0;
  ok_packet = empty_ok_packet;
  fields = [];
  field_buffers = [];
}

-- The answers of `process_response`, by the message's first byte. A `size_t` has 64 bits, so the range
-- check on the number of fields passes.
abbrev pub ok_response :
    ExecuteProcessor → ErrorInfo → Result OkPacket → ErrorCode × ErrorInfo × ExecuteProcessor
ok_response p info (err code) = (code, info, p)
ok_response p info (ok packet) = (success, info, record p { ok_packet = packet; field_count = 0 })

abbrev pub fields_response :
    ExecuteProcessor → ErrorInfo → Result ℕ → ErrorCode × ErrorInfo × ExecuteProcessor
fields_response p info (err code) = (code, info, p)
fields_response p info (ok num_fields) = (
  if num_fields == 0 then make_error_code protocol_value_error else success,
  info,
  record p { field_count = num_fields },
)

abbrev pub typed_response :
    ExecuteProcessor → ErrorInfo → Result (ℕ × List ℕ) → ErrorCode × ErrorInfo × ExecuteProcessor
typed_response p info (err code) = (code, info, p)
typed_response p info (ok (msg_type, ctx)) =
    if msg_type == ok_packet_header
    then ok_response p info (deserialize_message (deserialize_ok_packet p.ok_packet) ctx)
    else if msg_type == error_packet_header
    then (let (code, message) = process_error_packet ctx info in (code, message, p))
    else fields_response p info (deserialize_message deserialize_int_lenenc (rewind msg_type ctx))

unfoldable pub process_response :
    ExecuteProcessor → ErrorInfo → ErrorCode × ErrorInfo × ExecuteProcessor
process_response p info = typed_response p info (deserialize_message_type p.buffer)

abbrev pub field_definition : ExecuteProcessor → Result FieldMetadata → ErrorCode × ExecuteProcessor
field_definition p (err code) = (code, p)
field_definition p (ok definition) = (
  success,
  record p {
    fields = p.fields ++ (definition ∷ []);
    field_buffers = p.field_buffers ++ (p.buffer ∷ []);
    buffer = [];
  },
)

unfoldable pub process_field_definition : ExecuteProcessor → ErrorCode × ExecuteProcessor
process_field_definition p =
    field_definition p (deserialize_message deserialize_column_definition_packet p.buffer)

-- The null pointer to a row function, in a resultset that is complete and never calls it.
abbrev pub no_deserializer : DeserializeRowFn
no_deserializer meta ctx = err (make_error_code protocol_value_error)

unfoldable pub create_resultset : ExecuteProcessor → Resultset
create_resultset p =
    if p.field_count == 0
    then record {
      deserializer = no_deserializer;
      meta = [];
      ok_packet = p.ok_packet;
      eof_received = true;
      info_held = true;
    }
    else record {
      deserializer = p.deserializer;
      meta = p.fields;
      ok_packet = empty_ok_packet;
      eof_received = false;
      info_held = true;
    }

abbrev pub make_stmt_execute_packet : ℕ → List Variant → ComStmtExecutePacket
make_stmt_execute_packet statement_id params = record {
  statement_id = statement_id;
  flags = 0;
  iteration_count = 1;
  new_params_bind_flag = 1;
  params = params;
}

-- What `execute_generic` leaves. With an error the caller's resultset is as it was: `none`.
pub record Executed (C : Type 0) : Type 0 where
  pub code : ErrorCode
  pub info : ErrorInfo
  pub output : Option Resultset
  pub channel : C

module _ {C : Type 0} (layer : MessageLayer C) where
  abbrev pub stopped : ErrorCode → ErrorInfo → C → Option (Executed C)
  stopped code info c = some (record { code = code; info = info; output = none; channel = c })

  -- The loop over the field definitions, with the number of rounds that are left.
  unfoldable pub read_fields : ℕ → ExecuteProcessor → ErrorInfo → C → Option (Executed C)
  read_fields zero p info c =
      some (record { code = success; info = info; output = some (create_resultset p); channel = c })
  read_fields (suc remaining) p info c = do
    ((code, buffer), c') ← layer.read c
    if failed code
        then stopped code info c'
        else (let (code', p') = process_field_definition (record p { buffer = buffer }) in
            let rest = read_fields remaining p' info c' in
            if failed code' then stopped code' info c' else rest)

  -- The work on the server's first message, and what comes behind it.
  abbrev pub after_response : ErrorCode × ErrorInfo × ExecuteProcessor → C → Option (Executed C)
  after_response (code, info, p) c =
      if failed code then stopped code info c else read_fields p.field_count p info c

  unfoldable pub execute_generic :
      DeserializeRowFn
      → {T : Type 0} → SerializationTraits T
      → T
      → ErrorInfo
      → C
      → Option (Executed C)
  execute_generic deserializer traits request info c = do
    let message = traits.serialize_ (layer.current_capabilities c) request
    (code, c') ← layer.write message (layer.reset_sequence_number c)
    if failed code then stopped code info c' else (do
      ((code', buffer), c'') ← layer.read c'
      if failed code'
          then stopped code' info c''
          else after_response
              (process_response (record (new_processor deserializer) { buffer = buffer }) info) c'')

  unfoldable pub execute_query :
      TextLibrary → Calendar → List ℕ → ErrorInfo → C → Option (Executed C)
  execute_query lib cal query =
      execute_generic (deserialize_text_row lib cal) com_query_packet query

  unfoldable pub execute_statement :
      Calendar → ℕ → List Variant → ErrorInfo → C → Option (Executed C)
  execute_statement cal statement_id params =
      execute_generic (deserialize_binary_row cal) (com_stmt_execute_traits cal)
        (make_stmt_execute_packet statement_id params)
