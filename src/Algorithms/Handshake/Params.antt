-- ===== src/Algorithms/Handshake/Params.antt =====
-- The parameters of include/boost/mysql/connection_params.hpp, and the reading of the greeting in
-- impl/handshake.hpp. A collation is its number.
use mysql_asio.Base.{ℕ, ◌^◌, ◌%◌, Bool, List, [], ◌∷◌, ◌==◌, not, if◌then◌else◌}
use mysql_asio.Base.Error.{
  Result, ok, err, ErrorCode, ErrorInfo, success, make_error_code, server_unsupported,
  protocol_value_error,
}
use mysql_asio.Capabilities.{Capabilities}
use mysql_asio.Serialization.Message.{deserialize_message, deserialize_message_type}
use mysql_asio.Messages.Common.{process_error_packet}
use mysql_asio.Messages.Handshake.{HandshakePacket, deserialize_handshake_packet}
use mysql_asio.Resultset.{error_packet_header}

pub data SslMode : Type 0 where
  disable enable require : SslMode

pub record ConnectionParams : Type 0 where
  pub username : List ℕ
  pub password : List ℕ
  pub database : List ℕ
  pub connection_collation : ℕ
  pub ssl : SslMode

abbrev pub handshake_protocol_version_9 : ℕ
handshake_protocol_version_9 = 9

abbrev pub handshake_protocol_version_10 : ℕ
handshake_protocol_version_10 = 10

abbrev pub auth_switch_request_header : ℕ
auth_switch_request_header = 0xfe

abbrev pub auth_more_data_header : ℕ
auth_more_data_header = 0x01

abbrev pub fast_auth_complete_challenge : List ℕ
fast_auth_complete_challenge = 3 ∷ []

abbrev pub get_collation_first_byte : ℕ → ℕ
get_collation_first_byte value = value % 2 ^ 16 % 0xff

abbrev pub conditional_capability : Bool → Capabilities → Capabilities
conditional_capability condition cap = if condition then cap else 0

-- The caller's packet, as it is before one is read.
abbrev pub empty_handshake_packet : HandshakePacket
empty_handshake_packet = record {
  server_version = [];
  connection_id = 0;
  auth_plugin_data = [];
  capability_flags = 0;
  character_set = 0;
  status_flags = 0;
  auth_plugin_name = [];
}

abbrev pub greeting_by_type :
    ErrorInfo → Result (ℕ × List ℕ) → ErrorCode × HandshakePacket × ErrorInfo
greeting_by_type info (err code) = (code, empty_handshake_packet, info)
greeting_by_type info (ok (msg_type, ctx)) =
    if msg_type == handshake_protocol_version_9
    then (make_error_code server_unsupported, empty_handshake_packet, info)
    else if msg_type == error_packet_header
    then (let (code, message) = process_error_packet ctx info in
        (code, empty_handshake_packet, message))
    else if not (msg_type == handshake_protocol_version_10)
    then (make_error_code protocol_value_error, empty_handshake_packet, info)
    else elim (deserialize_message deserialize_handshake_packet ctx) [
      | err code ↦ (code, empty_handshake_packet, info)
      | ok packet ↦ (success, packet, info)
    ]

unfoldable pub deserialize_handshake : List ℕ → ErrorInfo → ErrorCode × HandshakePacket × ErrorInfo
deserialize_handshake buffer info = greeting_by_type info (deserialize_message_type buffer)
