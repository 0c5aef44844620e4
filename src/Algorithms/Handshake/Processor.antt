-- ===== src/Algorithms/Handshake/Processor.antt =====
-- `handshake_processor` of impl/handshake.hpp.
use mysql_asio.Algorithms.Handshake.Params.{
  SslMode, disable, enable, require, ConnectionParams, auth_switch_request_header,
  auth_more_data_header, fast_auth_complete_challenge, get_collation_first_byte,
  conditional_capability, deserialize_handshake,
}
use mysql_asio.Base.{
  ℕ, Bool, true, false, List, [], ◌∷◌, Option, some, ◌==◌, not, if◌then◌else◌, bit_and, bit_or,
  bytes_eq,
}
use mysql_asio.Base.Error.{
  Result, ok, err, ErrorCode, ErrorInfo, success, failed, make_error_code, server_unsupported,
  protocol_value_error,
}
use mysql_asio.Capabilities.{
  Capabilities, has, has_all, mandatory_capabilities, optional_capabilities, client_connect_with_db,
  client_ssl,
}
use mysql_asio.Serialization.Message.{deserialize_message, deserialize_message_type}
use mysql_asio.Messages.Common.{process_error_packet}
use mysql_asio.Messages.Handshake.{
  HandshakePacket, AuthSwitchRequestPacket, deserialize_auth_switch_request,
  deserialize_auth_more_data, ssl_request_traits, auth_switch_response_traits,
}
use mysql_asio.Messages.Handshake.Laws.{handshake_response_traits}
use mysql_asio.Channel.{max_packet_size}
use mysql_asio.Resultset.{error_packet_header}
use mysql_asio.Auth.Digest.{Digests}
use mysql_asio.Auth.{AuthCalculator, new_auth_calculator, plugin_name, calculate}
use mysql_asio.Algorithms.{◌>>=◌}
use mysql_asio.Algorithms.Execute.{ok_packet_header}

-- `invalid` is the value in front of the first answer.
pub data AuthResult : Type 0 where
  complete send_more_data wait_for_ok invalid : AuthResult

pub record HandshakeProcessor : Type 0 where
  pub params : ConnectionParams
  pub negotiated_caps : Capabilities
  pub auth_calc : AuthCalculator

abbrev pub new_handshake_processor : ConnectionParams → HandshakeProcessor
new_handshake_processor params = record {
  params = params;
  negotiated_caps = 0;
  auth_calc = new_auth_calculator;
}

unfoldable pub use_ssl : HandshakeProcessor → Bool
use_ssl p = has p.negotiated_caps client_ssl

abbrev pub is_require : SslMode → Bool
is_require disable = false
is_require enable = false
is_require require = true

abbrev pub is_enable : SslMode → Bool
is_enable disable = false
is_enable enable = true
is_enable require = false

abbrev pub is_empty : List ℕ → Bool
is_empty [] = true
is_empty (b ∷ s) = false

abbrev pub required_capabilities : SslMode → Bool → Capabilities
required_capabilities ssl no_database =
    bit_or
      (bit_or mandatory_capabilities
        (conditional_capability (not no_database) client_connect_with_db))
      (conditional_capability (is_require ssl) client_ssl)

abbrev pub wanted_capabilities : SslMode → Bool → Capabilities
wanted_capabilities ssl no_database =
    bit_or (bit_or (required_capabilities ssl no_database) optional_capabilities)
      (conditional_capability (is_enable ssl) client_ssl)

unfoldable pub process_capabilities :
    HandshakeProcessor → HandshakePacket → ErrorCode × HandshakeProcessor
process_capabilities p handshake =
    let server_caps = handshake.capability_flags in
    if not (has_all server_caps (required_capabilities p.params.ssl (is_empty p.params.database)))
    then (make_error_code server_unsupported, p)
    else (
      success,
      record p {
        negotiated_caps =
            bit_and server_caps (wanted_capabilities p.params.ssl (is_empty p.params.database));
      },
    )

-- The messages of the client.
unfoldable pub compose_ssl_request : HandshakeProcessor → List ℕ
compose_ssl_request p = ssl_request_traits.serialize_ p.negotiated_caps (record {
  client_flag = p.negotiated_caps;
  max_packet_size = max_packet_size;
  character_set = get_collation_first_byte p.params.connection_collation;
})

-- `none` for a plugin that is not there.
unfoldable pub compose_handshake_response : HandshakeProcessor → Option (List ℕ)
compose_handshake_response p = do
  name ← plugin_name p.auth_calc
  some (
      handshake_response_traits.serialize_ p.negotiated_caps (record {
        client_flag = p.negotiated_caps;
        max_packet_size = max_packet_size;
        character_set = get_collation_first_byte p.params.connection_collation;
        username = p.params.username;
        auth_response = p.auth_calc.response;
        database = p.params.database;
        client_plugin_name = name;
      }))

-- What `process_handshake_server_response` leaves: the code, the result, the buffer, the processor.
pub record ServerResponse : Type 0 where
  pub code : ErrorCode
  pub result : AuthResult
  pub buffer : List ℕ
  pub processor : HandshakeProcessor
  pub info : ErrorInfo

abbrev pub left : ErrorCode → AuthResult → List ℕ → HandshakeProcessor → ErrorInfo → ServerResponse
left code result buffer p info = record {
  code = code;
  result = result;
  buffer = buffer;
  processor = p;
  info = info;
}

module _ (digests : Digests) where
  -- The new calculator, and the response in the buffer unless there was an error.
  abbrev pub responded :
      HandshakeProcessor
      → List ℕ
      → AuthResult
      → ErrorInfo
      → ErrorCode × AuthCalculator
      → ServerResponse
  responded p buffer result info (code, calc) =
      if failed code
      then left code result buffer (record p { auth_calc = calc }) info
      else left success send_more_data
          (auth_switch_response_traits.serialize_ p.negotiated_caps calc.response)
          (record p { auth_calc = calc }) info

  abbrev pub switch_plugin :
      HandshakeProcessor
      → List ℕ
      → AuthResult
      → ErrorInfo
      → Result AuthSwitchRequestPacket
      → ServerResponse
  switch_plugin p buffer result info (err code) = left code result buffer p info
  switch_plugin p buffer result info (ok auth_sw) = responded p buffer result info (
      calculate digests p.auth_calc auth_sw.plugin_name p.params.password auth_sw.auth_plugin_data
        (use_ssl p))

  abbrev pub more_data :
      HandshakeProcessor → List ℕ → AuthResult → ErrorInfo → Result (List ℕ) → Option ServerResponse
  more_data p buffer result info (err code) = some (left code result buffer p info)
  more_data p buffer result info (ok challenge) =
      if bytes_eq challenge fast_auth_complete_challenge
      then some (left success wait_for_ok buffer p info)
      else (do
        name ← plugin_name p.auth_calc
        some (
            responded p buffer result info
              (calculate digests p.auth_calc name p.params.password challenge (use_ssl p))))

  abbrev pub response_by_type :
      HandshakeProcessor
      → List ℕ
      → AuthResult
      → ErrorInfo
      → Result (ℕ × List ℕ)
      → Option ServerResponse
  response_by_type p buffer result info (err code) = some (left code result buffer p info)
  response_by_type p buffer result info (ok (msg_type, ctx)) =
      if msg_type == ok_packet_header
      then some (left success complete buffer p info)
      else if msg_type == error_packet_header
      then (let (code, message) = process_error_packet ctx info in
          some (left code result buffer p message))
      else if msg_type == auth_switch_request_header
      then some (
          switch_plugin p buffer result info
            (deserialize_message deserialize_auth_switch_request ctx))
      else if msg_type == auth_more_data_header
      then more_data p buffer result info (deserialize_message deserialize_auth_more_data ctx)
      else some (left (make_error_code protocol_value_error) result buffer p info)

  unfoldable pub process_handshake_server_response :
      HandshakeProcessor → List ℕ → AuthResult → ErrorInfo → Option ServerResponse
  process_handshake_server_response p buffer result info =
      response_by_type p buffer result info (deserialize_message_type buffer)

  -- The three steps of `process_handshake`, each after the one before it has succeeded.
  abbrev pub calculate_first : HandshakeProcessor → HandshakePacket → ErrorCode × HandshakeProcessor
  calculate_first p handshake =
      let (code, calc) =
        calculate digests p.auth_calc handshake.auth_plugin_name p.params.password
          handshake.auth_plugin_data (use_ssl p) in
      (code, record p { auth_calc = calc })

  abbrev pub process_greeting :
      HandshakeProcessor
      → ErrorCode × HandshakePacket × ErrorInfo
      → ErrorCode × HandshakeProcessor × ErrorInfo
  process_greeting p (code, handshake, info) =
      if failed code
      then (code, p, info)
      else (let (code', p') = process_capabilities p handshake in
          if failed code'
          then (code', p', info)
          else (let (code'', p'') = calculate_first p' handshake in (code'', p'', info)))

  unfoldable pub process_handshake :
      HandshakeProcessor → List ℕ → ErrorInfo → ErrorCode × HandshakeProcessor × ErrorInfo
  process_handshake p buffer info = process_greeting p (deserialize_handshake buffer info)
