-- ===== src/Algorithms/Tests.antt =====
-- Runs of the algorithms.
use mysql_asio.Base.{
  ◌⊎◌, ℕ, ◌≡◌, refl, false, List, [], ◌∷◌, some, ◌++◌, ◌≤◌, arith, length, length-append, none,
}
use mysql_asio.Base.Error.{ErrorCode, success, system, ok}
use mysql_asio.Base.Bytes.{from_le, to_le}
use mysql_asio.Serialization.Message.{serialize_struct}
use mysql_asio.Serialization.{
  serialize, serialize_field, deserialize, deserialize_int_lenenc, deserialize_fixed_int,
}
use mysql_asio.Messages.Common.{OkPacket, com_query_packet, quit_packet, deserialize_ok_packet}
use mysql_asio.Auth.Digest.{Digests}
use mysql_asio.Messages.Statement.{ComStmtPrepareOkPacket, deserialize_prepare_ok}
use mysql_asio.Algorithms.Handshake.Params.{ConnectionParams, disable}
use mysql_asio.Algorithms.Handshake.{Handshaken}
use mysql_asio.Algorithms.Prepare.{prepare_statement}
use mysql_asio.Algorithms.Prepare.Replies.{
  prepared, prepare_outcome, prepare_statement-IsPrepareReply,
}
use mysql_asio.Algorithms.Connection.{
  close_connection, quit_connection, connect, physical_connect_failed,
}
use mysql_asio.Algorithms.Connection.Laws.{
  LeftAlone, ClosedAfter, close_connection-closed, connect-closed,
}
use mysql_asio.Channel.{Channel, new_channel}
use mysql_asio.Channel.Header.{header_bytes, length-header_bytes}
use mysql_asio.Channel.Packets.{last}
use mysql_asio.Channel.Reading.{IsValid}
use mysql_asio.Channel.Memory.{
  Memory, memory_io, memory_delivers, memory_accepts, incoming_of, outgoing_of,
}
use mysql_asio.Values.Plain.{plain}
use mysql_asio.Values.Text.{TextLibrary, deserialize_text_row}
use mysql_asio.Algorithms.Layer.{channel_layer, channel_layer-Follows}
use mysql_asio.Algorithms.Wire.{execute_query-Carries}
use mysql_asio.Algorithms.Execute.{execute_query}
use mysql_asio.Algorithms.Script.{Script, scripted, script_of}
use mysql_asio.Algorithms.Dialogue.{Follows, server, client}
use mysql_asio.Algorithms.Execute.{execute_generic, no_deserializer}
use mysql_asio.Algorithms.Execute.Replies.{completed, outcome, execute_generic-IsReply, IsReply}

-- An OK packet with three rows affected, and what a server sends behind it.
abbrev pub three_rows : OkPacket
three_rows = record {
  affected_rows = 3;
  last_insert_id = 0;
  status_flags = 2;
  warnings = 0;
  info = [];
}

abbrev pub three_rows_body : List ℕ
three_rows_body = 3 ∷ 0 ∷ 2 ∷ 0 ∷ 0 ∷ 0 ∷ []

pub three_rows-IsReply : IsReply (completed three_rows three_rows_body)
unfolding deserialize_ok_packet deserialize deserialize_int_lenenc from_le
three_rows-IsReply = refl

execute_generic-IsReply_example :
    (c : Script) × (execute_generic scripted no_deserializer com_query_packet
        (65 ∷ [])
        []
        (script_of ((0x00 ∷ three_rows_body) ∷ (9 ∷ []) ∷ []))
      ≡ some (outcome no_deserializer [] (completed three_rows three_rows_body) c))
    × Follows scripted c (server (9 ∷ []) ∷ [])
execute_generic-IsReply_example =
    execute_generic-IsReply scripted no_deserializer com_query_packet (65 ∷ []) []
      (script_of ((0x00 ∷ three_rows_body) ∷ (9 ∷ []) ∷ [])) (completed three_rows three_rows_body)
      (server (9 ∷ []) ∷ []) three_rows-IsReply (_, refl, (_, refl, (_, refl, tt)))

-- A statement with one parameter and one column.
abbrev statement : ComStmtPrepareOkPacket
statement = record { statement_id = 7; num_columns = 1; num_params = 1; warning_count = 0 }

abbrev statement_body : List ℕ
statement_body = 7 ∷ 0 ∷ 0 ∷ 0 ∷ 1 ∷ 0 ∷ 1 ∷ 0 ∷ 0 ∷ 0 ∷ 0 ∷ []

statement_read : deserialize_prepare_ok statement_body ≡ ok (statement, [])
unfolding deserialize_prepare_ok deserialize deserialize_fixed_int from_le
statement_read = refl

abbrev pub prepare_script : Script
prepare_script = script_of ((0x00 ∷ statement_body) ∷ (1 ∷ []) ∷ (2 ∷ []) ∷ (9 ∷ []) ∷ [])

prepare_statement-IsPrepareReply_example :
    (c : Script) × (prepare_statement scripted (65 ∷ []) [] prepare_script
      ≡ some (prepare_outcome [] (prepared statement statement_body ((1 ∷ []) ∷ (2 ∷ []) ∷ [])) c))
    × Follows scripted c (server (9 ∷ []) ∷ [])
prepare_statement-IsPrepareReply_example =
    prepare_statement-IsPrepareReply scripted (65 ∷ []) [] prepare_script
      (prepared statement statement_body ((1 ∷ []) ∷ (2 ∷ []) ∷ [])) (server (9 ∷ []) ∷ [])
      (statement_read, refl) (_, refl, (_, refl, (_, refl, (_, refl, (_, refl, tt)))))

abbrev quit_run : ErrorCode × Script
quit_run = (success, record (script_of []) { outgoing = quit_packet.serialize_ 0 tt ∷ [] })

close_connection-closed_example :
    (code : ErrorCode) × (c : Script) × (close_connection scripted (script_of []) ≡ some (code, c))
    × (c.opened ≡ false)
    × (LeftAlone scripted (script_of []) code c
        ⊎ ClosedAfter scripted (script_of []) quit_run code c)
close_connection-closed_example =
    close_connection-closed scripted (script_of []) quit_run (λ c. refl)
      (unfold quit_connection in refl)

abbrev no_digests : Digests
no_digests = record { sha1 = λ s. []; sha256 = λ s. [] }

abbrev params : ConnectionParams
params = record {
  username = [];
  password = [];
  database = [];
  connection_collation = 45;
  ssl = disable;
}

abbrev unconnected : Handshaken Script
unconnected = record {
  code = system 111;
  info = physical_connect_failed;
  channel = record (script_of []) { opened = false };
}

connect-closed_example : unconnected.channel.opened ≡ false
connect-closed_example =
    connect-closed scripted no_digests (λ c. (system 111, c)) 5 params [] (script_of []) unconnected
      (λ c. refl) (unfold connect in refl) refl

-- The reply in a packet with the number 1, and the bytes of another message behind it.
abbrev reply_wire : List ℕ
reply_wire = header_bytes 7 1 ++ (0x00 ∷ three_rows_body)

abbrev memory : Memory
memory = record { incoming = reply_wire ++ (1 ∷ 2 ∷ []); outgoing = [] }

-- No row is read.
abbrev pub library : TextLibrary
library = record {
  to_int64 = λ s. none;
  to_uint64 = λ s. none;
  to_float = λ s. none;
  to_double = λ s. none;
  scan_ymd = λ s. none;
  scan_time_of_day = λ decimals s. none;
  scan_time = λ decimals s. none;
}

length-memory : length memory.incoming ≡ 13
length-memory = omega (
  arith,
  length-append reply_wire (1 ∷ 2 ∷ []),
  length-append (header_bytes 7 1) (0x00 ∷ three_rows_body),
  length-header_bytes 7 1,
)

new_channel-IsValid : IsValid new_channel
new_channel-IsValid = record { number_fits = omega arith; header_size = refl }

channel_layer-Follows_example :
    Follows
      (channel_layer memory_io 20)
      (new_channel, memory)
      (client (65 ∷ []) ∷ server (0x00 ∷ three_rows_body) ∷ [])
channel_layer-Follows_example =
    channel_layer-Follows memory_io incoming_of outgoing_of memory_delivers memory_accepts
      (client (65 ∷ []) ∷ server (0x00 ∷ three_rows_body) ∷ []) 20 new_channel memory
      memory.incoming (λ tls bytes s. refl) new_channel-IsValid refl
      (omega arith, (reply_wire, 1 ∷ 2 ∷ [], last (0x00 ∷ three_rows_body) (omega arith), refl, tt))
      (omega (arith, length-memory))

pub query_fits : length (com_query_packet.serialize_ 0 (65 ∷ [])) ≤ 0xffffff
unfolding serialize_struct serialize serialize_field to_le
query_fits = omega arith

execute_query-Carries_example :
    (c : Channel × Memory) × (execute_query
        (channel_layer memory_io 20)
        library
        plain
        (65 ∷ [])
        []
        (new_channel, memory)
      ≡ some (
          outcome (deserialize_text_row library plain) [] (completed three_rows three_rows_body) c))
execute_query-Carries_example =
    execute_query-Carries memory_io incoming_of outgoing_of memory_delivers memory_accepts library
      plain (65 ∷ []) [] new_channel memory (completed three_rows three_rows_body) 20
      (λ tls bytes s. refl) new_channel-IsValid three_rows-IsReply
      (query_fits, (reply_wire, 1 ∷ 2 ∷ [], last (0x00 ∷ three_rows_body) (omega arith), refl, tt))
      (omega (arith, length-memory))
