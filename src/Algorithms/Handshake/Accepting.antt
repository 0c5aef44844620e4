-- ===== src/Algorithms/Handshake/Accepting.antt =====
-- The ways of a server to accept a client, and what is made of its answers.
use mysql_asio.Base.{ℕ, suc, ◌≡◌, refl, Bool, false, List, [], ◌∷◌, some, bytes_eq, append-nil}
use mysql_asio.Base.Error.{ok, ErrorInfo, success}
use mysql_asio.Capabilities.{Capabilities}
use mysql_asio.Serialization.{deserialize_string_eof, deserialize, serialize, serialize_field}
use mysql_asio.Serialization.Message.{deserialize_message, deserialize_message-ok, serialize_struct}
use mysql_asio.Messages.Handshake.{
  AuthSwitchRequestPacket, deserialize_auth_switch_request, deserialize_auth_more_data,
  auth_switch_response_traits,
}
use mysql_asio.Resultset.Processing.{message_type_of}
use mysql_asio.Auth.Digest.{Digests}
use mysql_asio.Auth.{AuthCalculator, plugin_name, calculate}
use mysql_asio.Algorithms.Dialogue.{Turn, client, server}
use mysql_asio.Algorithms.Handshake.Processor.{
  AuthResult, complete, send_more_data, wait_for_ok, HandshakeProcessor, use_ssl, left,
  process_handshake_server_response,
}

module _ (digests : Digests) (password : List ℕ) (ssl : Bool) where
  -- A server's way to accept the client, in a number of rounds: an OK packet ends it. Before that the
  -- server may announce one, change the plugin, or ask for more data; the client answers with what the
  -- authentication calculator computes.
  pub data Accepts : ℕ → AuthCalculator → List Turn → Type 0 where
    accepted : {calc : AuthCalculator} (body : List ℕ) → Accepts 1 calc (server (0x00 ∷ body) ∷ [])
    announces :
        {n : ℕ} {calc : AuthCalculator} {turns : List Turn}
        → Accepts n calc turns
        → Accepts (suc n) calc (server (0x01 ∷ 3 ∷ []) ∷ turns)
    switches :
        {n : ℕ} {calc : AuthCalculator} {turns : List Turn} (body : List ℕ)
        (request : AuthSwitchRequestPacket) (calc' : AuthCalculator)
        → deserialize_auth_switch_request body ≡ ok (request, [])
        → calculate digests calc request.plugin_name password request.auth_plugin_data ssl
          ≡ (success, calc')
        → Accepts n calc' turns
        → Accepts (suc n) calc (server (0xfe ∷ body) ∷ client calc'.response ∷ turns)
    asks :
        {n : ℕ} {calc : AuthCalculator} {turns : List Turn} (challenge name : List ℕ)
        (calc' : AuthCalculator)
        → bytes_eq challenge (3 ∷ []) ≡ false
        → plugin_name calc ≡ some name
        → calculate digests calc name password challenge ssl ≡ (success, calc')
        → Accepts n calc' turns
        → Accepts (suc n) calc (server (0x01 ∷ challenge) ∷ client calc'.response ∷ turns)

pub data_read :
    (challenge : List ℕ) → deserialize_message deserialize_auth_more_data challenge ≡ ok challenge
unfolding deserialize_message deserialize_auth_more_data deserialize_string_eof deserialize
data_read challenge = refl

pub response_bytes :
    (caps : Capabilities) (response : List ℕ)
    → auth_switch_response_traits.serialize_ caps response ≡ response
unfolding serialize_struct serialize serialize_field
response_bytes caps response = append-nil response

module _ (digests : Digests) (p : HandshakeProcessor) (result : AuthResult) (info : ErrorInfo) where
  pub answer_accepted :
      (body : List ℕ)
      → process_handshake_server_response digests p (0x00 ∷ body) result info
        ≡ some (left success complete (0x00 ∷ body) p info)
  unfolding process_handshake_server_response
  answer_accepted body = rw (message_type_of 0x00 body) refl

  pub answer_announced :
      process_handshake_server_response digests p (0x01 ∷ 3 ∷ []) result info
      ≡ some (left success wait_for_ok (0x01 ∷ 3 ∷ []) p info)
  unfolding process_handshake_server_response
  answer_announced = rw (message_type_of 0x01 (3 ∷ []), data_read (3 ∷ [])) refl

  pub answer_switched :
      (body : List ℕ) (request : AuthSwitchRequestPacket) (calc' : AuthCalculator)
      → deserialize_auth_switch_request body ≡ ok (request, [])
      → calculate digests p.auth_calc request.plugin_name p.params.password request.auth_plugin_data
          (use_ssl p)
        ≡ (success, calc')
      → process_handshake_server_response digests p (0xfe ∷ body) result info
        ≡ some (left success send_more_data calc'.response (record p { auth_calc = calc' }) info)
  unfolding process_handshake_server_response
  answer_switched body request calc' read computed =
      rw
        (
          message_type_of 0xfe body,
          deserialize_message-ok deserialize_auth_switch_request body request read,
          computed,
          response_bytes p.negotiated_caps calc'.response,
        )
        refl

  pub answer_asked :
      (challenge name : List ℕ) (calc' : AuthCalculator)
      → bytes_eq challenge (3 ∷ []) ≡ false
      → plugin_name p.auth_calc ≡ some name
      → calculate digests p.auth_calc name p.params.password challenge (use_ssl p)
        ≡ (success, calc')
      → process_handshake_server_response digests p (0x01 ∷ challenge) result info
        ≡ some (left success send_more_data calc'.response (record p { auth_calc = calc' }) info)
  unfolding process_handshake_server_response
  answer_asked challenge name calc' other named computed =
      rw
        (
          message_type_of 0x01 challenge,
          data_read challenge,
          other,
          named,
          computed,
          response_bytes p.negotiated_caps calc'.response,
        )
        refl
