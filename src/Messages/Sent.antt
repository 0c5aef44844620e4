-- ===== src/Messages/Sent.antt =====
-- The messages that the client sends, each through `serialize_message` with the traits of its type.
use mysql_asio.Base.{ℕ, ◌≤◌, ◌≡◌, refl, List, [], ◌∷◌, Option, none, some, length}
use mysql_asio.Serialization.{fixed_int, int4, string_eof}
use mysql_asio.Serialization.Message.{
  length-serialize_struct, serialize_message, serialize_message_lem,
}
use mysql_asio.Messages.Common.{com_query_packet, quit_packet}
use mysql_asio.Messages.Handshake.{
  HandshakeResponsePacket, SslRequest, ssl_request_fields, ssl_request_traits, filler_23,
  auth_switch_response_traits,
}
use mysql_asio.Messages.Handshake.Laws.{
  handshake_response_traits, length-serialize_handshake_response,
}
use mysql_asio.Messages.Statement.{
  ComStmtExecutePacket, com_stmt_prepare_packet, com_stmt_close_packet,
}
use mysql_asio.Messages.Statement.Laws.{com_stmt_execute_traits, length-serialize_execute}
use mysql_asio.Values.{Calendar}

pub data Outgoing : Type 0 where
  query prepare auth_switch_response : List ℕ → Outgoing
  execute : ComStmtExecutePacket → Outgoing
  close_statement : ℕ → Outgoing
  quit : Outgoing
  ssl_request : SslRequest → Outgoing
  handshake_response : HandshakeResponsePacket → Outgoing

unfoldable pub serialize_outgoing : Calendar → Outgoing → ℕ → List ℕ → Option (List ℕ)
serialize_outgoing cal (query s) caps buffer = serialize_message com_query_packet s caps buffer
serialize_outgoing cal (prepare s) caps buffer =
    serialize_message com_stmt_prepare_packet s caps buffer
serialize_outgoing cal (auth_switch_response s) caps buffer =
    serialize_message auth_switch_response_traits s caps buffer
serialize_outgoing cal (execute p) caps buffer =
    serialize_message (com_stmt_execute_traits cal) p caps buffer
serialize_outgoing cal (close_statement id) caps buffer =
    serialize_message com_stmt_close_packet id caps buffer
serialize_outgoing cal quit caps buffer = serialize_message quit_packet tt caps buffer
serialize_outgoing cal (ssl_request r) caps buffer =
    serialize_message ssl_request_traits r caps buffer
serialize_outgoing cal (handshake_response r) caps buffer =
    serialize_message handshake_response_traits r caps buffer

-- The bytes that the message's `serialize_` writes.
abbrev pub bytes_of : Calendar → Outgoing → ℕ → List ℕ
bytes_of cal (query s) caps = com_query_packet.serialize_ caps s
bytes_of cal (prepare s) caps = com_stmt_prepare_packet.serialize_ caps s
bytes_of cal (auth_switch_response s) caps = auth_switch_response_traits.serialize_ caps s
bytes_of cal (execute p) caps = (com_stmt_execute_traits cal).serialize_ caps p
bytes_of cal (close_statement id) caps = com_stmt_close_packet.serialize_ caps id
bytes_of cal quit caps = quit_packet.serialize_ caps tt
bytes_of cal (ssl_request r) caps = ssl_request_traits.serialize_ caps r
bytes_of cal (handshake_response r) caps = handshake_response_traits.serialize_ caps r

-- What the assertion of the execute message allows.
abbrev pub IsAllowed : Outgoing → Type 0
IsAllowed (execute p) = length p.params ≤ 255
IsAllowed m = Unit

-- For each message that the client sends, an execute message with no more than 255 parameters: whatever
-- the capabilities and whatever the buffer held, `get_size_` makes the buffer as long as what
-- `serialize_` writes, so `serialize_message` writes inside it, ends at its end, and leaves in it just
-- the bytes of the message.
pub serialize_outgoing_lem :
    (cal : Calendar) (m : Outgoing) (caps : ℕ) (buffer : List ℕ)
    → IsAllowed m
    → serialize_outgoing cal m caps buffer ≡ some (bytes_of cal m caps)
unfolding serialize_outgoing
serialize_outgoing_lem cal (query s) caps buffer h =
    serialize_message_lem com_query_packet s caps buffer
      (length-serialize_struct (some 3) (string_eof ∷ []) (s, tt) (tt, tt))
serialize_outgoing_lem cal (prepare s) caps buffer h =
    serialize_message_lem com_stmt_prepare_packet s caps buffer
      (length-serialize_struct (some 0x16) (string_eof ∷ []) (s, tt) (tt, tt))
serialize_outgoing_lem cal (auth_switch_response s) caps buffer h =
    serialize_message_lem auth_switch_response_traits s caps buffer
      (length-serialize_struct none (string_eof ∷ []) (s, tt) (tt, tt))
serialize_outgoing_lem cal (execute p) caps buffer h =
    serialize_message_lem (com_stmt_execute_traits cal) p caps buffer
      (length-serialize_execute cal p)
serialize_outgoing_lem cal (close_statement id) caps buffer h =
    serialize_message_lem com_stmt_close_packet id caps buffer
      (length-serialize_struct (some 0x19) (fixed_int int4 ∷ []) (id, tt) (tt, tt))
serialize_outgoing_lem cal quit caps buffer h =
    serialize_message_lem quit_packet tt caps buffer (length-serialize_struct (some 1) [] tt tt)
serialize_outgoing_lem cal (ssl_request r) caps buffer h =
    serialize_message_lem ssl_request_traits r caps buffer (
      length-serialize_struct none ssl_request_fields
        (r.client_flag, (r.max_packet_size, (r.character_set, (filler_23, tt))))
        (tt, (tt, (tt, (refl, tt)))))
serialize_outgoing_lem cal (handshake_response r) caps buffer h =
    serialize_message_lem handshake_response_traits r caps buffer
      (length-serialize_handshake_response caps r)
