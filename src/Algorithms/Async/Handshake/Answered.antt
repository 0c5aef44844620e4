-- ===== src/Algorithms/Async/Handshake/Answered.antt =====
-- `process_handshake_server_response` looks at the error info that it is given in nothing that it does.
use mysql_asio.Base.{
  ℕ, ◌≡◌, refl, ap, ◌∙◌, List, [], Option, none, some, Bool-cases, inl, inr, ◌==◌, bytes_eq,
}
use mysql_asio.Base.Error.{Result, Result-cases, ok, err, ErrorCode, ErrorInfo, failed}
use mysql_asio.Serialization.Message.{deserialize_message, deserialize_message_type}
use mysql_asio.Messages.Common.{process_error_packet, deserialize_err_packet}
use mysql_asio.Messages.Handshake.{
  AuthSwitchRequestPacket, deserialize_auth_switch_request, deserialize_auth_more_data,
}
use mysql_asio.Resultset.{error_packet_header}
use mysql_asio.Auth.Digest.{Digests}
use mysql_asio.Auth.{AuthCalculator, plugin_name, calculate}
use mysql_asio.Algorithms.{◌>>=◌, some_injective}
use mysql_asio.Algorithms.Execute.{ok_packet_header}
use mysql_asio.Algorithms.Handshake.Processor.{
  AuthResult, HandshakeProcessor, ServerResponse, responded, switch_plugin, more_data,
  response_by_type, process_handshake_server_response, use_ssl,
}
use mysql_asio.Algorithms.Handshake.Params.{
  auth_switch_request_header, auth_more_data_header, fast_auth_complete_challenge,
}

-- All but the error info.
abbrev erased : Option ServerResponse → Option ServerResponse
erased none = none
erased (some r) = some (record r { info = [] })

module _ (digests : Digests) (p : HandshakeProcessor) (buffer : List ℕ) (result : AuthResult)
    (info info' : ErrorInfo) where
  responded-erased :
      (calculated : ErrorCode × AuthCalculator)
      → erased (some (responded digests p buffer result info calculated))
        ≡ erased (some (responded digests p buffer result info' calculated))
  responded-erased (code, calc) = elim (Bool-cases (failed code)) [
    | inl e ↦ rw e refl
    | inr e ↦ rw e refl
  ]

  switch_plugin-erased :
      (read : Result AuthSwitchRequestPacket)
      → erased (some (switch_plugin digests p buffer result info read))
        ≡ erased (some (switch_plugin digests p buffer result info' read))
  switch_plugin-erased (err code) = refl
  switch_plugin-erased (ok auth_sw) = responded-erased (
      calculate digests p.auth_calc auth_sw.plugin_name p.params.password auth_sw.auth_plugin_data
        (use_ssl p))

  named-erased :
      (challenge : List ℕ) (name : Option (List ℕ))
      → erased (
          name >>= λ n. some (
            responded digests p buffer result info
              (calculate digests p.auth_calc n p.params.password challenge (use_ssl p))))
        ≡ erased (
            name >>= λ n. some (
              responded digests p buffer result info'
                (calculate digests p.auth_calc n p.params.password challenge (use_ssl p))))
  named-erased challenge none = refl
  named-erased challenge (some name) =
      responded-erased (calculate digests p.auth_calc name p.params.password challenge (use_ssl p))

  more_data-erased :
      (read : Result (List ℕ))
      → erased (more_data digests p buffer result info read)
        ≡ erased (more_data digests p buffer result info' read)
  more_data-erased (err code) = refl
  more_data-erased (ok challenge) =
      elim (Bool-cases (bytes_eq challenge fast_auth_complete_challenge)) [
        | inl e ↦ rw e refl
        | inr e ↦ rw e (named-erased challenge (plugin_name p.auth_calc))
      ]

  error_packet-erased :
      (ctx : List ℕ) → (process_error_packet ctx info).0 ≡ (process_error_packet ctx info').0
  unfolding process_error_packet
  error_packet-erased ctx = elim (Result-cases (deserialize_message deserialize_err_packet ctx)) [
    | inl (packet, e) ↦ rw (process_error_packet, e) refl
    | inr (code, e) ↦ rw (process_error_packet, e) refl
  ]

  response_by_type-erased :
      (read : Result (ℕ × List ℕ))
      → erased (response_by_type digests p buffer result info read)
        ≡ erased (response_by_type digests p buffer result info' read)
  response_by_type-erased (err code) = refl
  response_by_type-erased (ok (msg_type, ctx)) = elim (Bool-cases (msg_type == ok_packet_header)) [
    | inl e ↦ rw e refl
    | inr e ↦ elim (Bool-cases (msg_type == error_packet_header)) [
      | inl e' ↦ rw (e, e', error_packet-erased ctx) refl
      | inr e' ↦ elim (Bool-cases (msg_type == auth_switch_request_header)) [
        | inl e'' ↦
            rw (e, e', e'')
              (switch_plugin-erased (deserialize_message deserialize_auth_switch_request ctx))
        | inr e'' ↦ elim (Bool-cases (msg_type == auth_more_data_header)) [
          | inl e3 ↦
              rw (e, e', e'', e3)
                (more_data-erased (deserialize_message deserialize_auth_more_data ctx))
          | inr e3 ↦ rw (e, e', e'', e3) refl
        ]
      ]
    ]
  ]

erased-some :
    (o : Option ServerResponse) (r : ServerResponse)
    → erased o ≡ erased (some r)
    → (message : ErrorInfo) × (o ≡ some (record r { info = message }))
erased-some none r h = cc
erased-some (some r') r h = (
  r'.info,
  ap (λ (t : ServerResponse). some (record t { info = r'.info })) (some_injective _ _ h),
)

-- With another error info, an answer of the server is processed in the same way.
pub response_with_info :
    (digests : Digests) (p : HandshakeProcessor) (buffer : List ℕ) (result : AuthResult)
    (info info' : ErrorInfo) (r : ServerResponse)
    → process_handshake_server_response digests p buffer result info ≡ some r
    → (message : ErrorInfo) × (process_handshake_server_response digests p buffer result info'
        ≡ some (record r { info = message }))
unfolding process_handshake_server_response
response_with_info digests p buffer result info info' r h =
    erased-some (response_by_type digests p buffer result info' (deserialize_message_type buffer)) r
      (response_by_type-erased digests p buffer result info' info (deserialize_message_type buffer)
        ∙ ap erased h)
