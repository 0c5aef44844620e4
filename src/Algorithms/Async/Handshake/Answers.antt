-- ===== src/Algorithms/Async/Handshake/Answers.antt =====
-- The plugin of the authentication calculator behind each answer that is processed.
use mysql_asio.Base.{
  ℕ, ◌≡◌, refl, ap, Bool, false, List, [], ◌∷◌, Option, none, some, Bool-cases, inl, inr, ◌==◌,
  bytes_eq,
}
use mysql_asio.Base.Error.{
  Result, ok, err, ErrorCode, ErrorInfo, success, failed, make_error_code, protocol_value_error,
}
use mysql_asio.Serialization.Message.{deserialize_message, deserialize_message_type}
use mysql_asio.Messages.Common.{process_error_packet}
use mysql_asio.Messages.Handshake.{
  HandshakePacket, AuthSwitchRequestPacket, deserialize_auth_switch_request,
  deserialize_auth_more_data,
}
use mysql_asio.Auth.Digest.{Digests}
use mysql_asio.Auth.{
  AuthenticationPlugin, AuthCalculator, find_plugin, calculate_with, with_response, calculate,
  plugin_name,
}
use mysql_asio.Algorithms.{◌>>=◌}
use mysql_asio.Algorithms.Handshake.Processor.{
  AuthResult, complete, wait_for_ok, HandshakeProcessor, use_ssl, process_capabilities,
  process_greeting, compose_handshake_response, ServerResponse, left, responded, switch_plugin,
  more_data, response_by_type, process_handshake_server_response,
}

abbrev pub HasPlugin : AuthCalculator → Type 0
HasPlugin calc = (plugin : AuthenticationPlugin) × (calc.plugin ≡ some plugin)

given :
    {A B : Type 0} (o : Option A) (f : A → B) (a : A)
    → o ≡ some a
    → (b : B) × ((o >>= λ x. some (f x)) ≡ some b)
given o f a h = (f a, rw h refl)

named :
    (calc : AuthCalculator) (plugin : AuthenticationPlugin)
    → calc.plugin ≡ some plugin
    → plugin_name calc ≡ some plugin.name
named calc plugin h =
    ap (λ (o : Option AuthenticationPlugin). elim o [ none ↦ none | some q ↦ some q.name ]) h

pub composed :
    (p : HandshakeProcessor)
    → HasPlugin p.auth_calc
    → (response : List ℕ) × (compose_handshake_response p ≡ some response)
unfolding compose_handshake_response
composed p (plugin, h) = given (plugin_name p.auth_calc) _ plugin.name (named p.auth_calc plugin h)

with_response-HasPlugin :
    (calc : AuthCalculator) (r : Result (List ℕ))
    → HasPlugin calc
    → HasPlugin (with_response calc r).1
with_response-HasPlugin calc (err code) h = h
with_response-HasPlugin calc (ok response) h = h

calculate_with-HasPlugin :
    (calc : AuthCalculator) (o : Option AuthenticationPlugin) (password challenge : List ℕ)
    (use_ssl : Bool)
    → failed (calculate_with calc o password challenge use_ssl).0 ≡ false
    → HasPlugin (calculate_with calc o password challenge use_ssl).1
calculate_with-HasPlugin calc none password challenge use_ssl h = cc
calculate_with-HasPlugin calc (some plugin) [] challenge use_ssl h = (plugin, refl)
calculate_with-HasPlugin calc (some plugin) (b ∷ password) challenge use_ssl h =
    with_response-HasPlugin (record calc { plugin = some plugin })
      (plugin.calculator (b ∷ password) challenge use_ssl) (plugin, refl)

module _ (digests : Digests) where
  calculate-HasPlugin :
      (calc : AuthCalculator) (name password challenge : List ℕ) (use_ssl : Bool)
      → failed (calculate digests calc name password challenge use_ssl).0 ≡ false
      → HasPlugin (calculate digests calc name password challenge use_ssl).1
  unfolding calculate
  calculate-HasPlugin calc name = calculate_with-HasPlugin calc (find_plugin digests name)

  pub process_greeting-HasPlugin :
      (p : HandshakeProcessor) (read : ErrorCode × HandshakePacket × ErrorInfo)
      → failed (process_greeting digests p read).0 ≡ false
      → HasPlugin (process_greeting digests p read).1.auth_calc
  process_greeting-HasPlugin p (code, packet, info) h = elim (Bool-cases (failed code)) [
    | inl e ↦ let h' = rw e at h in cc
    | inr e ↦ elim (Bool-cases (failed (process_capabilities p packet).0)) [
      | inl e' ↦ let h' = rw (e, e') at h in cc
      | inr e' ↦ let h' = rw (e, e') at h in rw (e, e') (calculate-HasPlugin _ _ _ _ _ h')
    ]
  ]

  -- An answer that is processed leaves a plugin where there was one.
  abbrev pub Answered : Option ServerResponse → Type 0
  Answered o =
      (r : ServerResponse) × (o ≡ some r)
      × (failed r.code ≡ false → HasPlugin r.processor.auth_calc)

  responded-Answered :
      (p : HandshakeProcessor) (buffer : List ℕ) (result : AuthResult) (info : ErrorInfo)
      (t : ErrorCode × AuthCalculator)
      → (failed t.0 ≡ false → HasPlugin t.1)
      → Answered (some (responded digests p buffer result info t))
  responded-Answered p buffer result info (code, calc) h = (
    responded digests p buffer result info (code, calc),
    refl,
    λ h'. elim (Bool-cases (failed code)) [
      | inl e ↦ let h'' = rw e at h' in cc
      | inr e ↦ rw e (h e)
    ],
  )

  switch_plugin-Answered :
      (p : HandshakeProcessor) (buffer : List ℕ) (result : AuthResult) (info : ErrorInfo)
      (request : Result AuthSwitchRequestPacket)
      → HasPlugin p.auth_calc
      → Answered (some (switch_plugin digests p buffer result info request))
  switch_plugin-Answered p buffer result info (err code) plugged = (_, refl, λ h. plugged)
  switch_plugin-Answered p buffer result info (ok request) plugged =
      responded-Answered p buffer result info
        (calculate digests p.auth_calc request.plugin_name p.params.password
          request.auth_plugin_data (use_ssl p))
        (calculate-HasPlugin p.auth_calc request.plugin_name p.params.password
          request.auth_plugin_data (use_ssl p))

  more_data-Answered :
      (p : HandshakeProcessor) (buffer : List ℕ) (result : AuthResult) (info : ErrorInfo)
      (read : Result (List ℕ))
      → HasPlugin p.auth_calc
      → Answered (more_data digests p buffer result info read)
  more_data-Answered p buffer result info (err code) plugged = (_, refl, λ h. plugged)
  more_data-Answered p buffer result info (ok challenge) (plugin, h) =
      elim (Bool-cases (bytes_eq challenge (3 ∷ []))) [
        | inl e ↦ (left success wait_for_ok buffer p info, rw e refl, λ h'. (plugin, h))
        | inr e ↦
            let (r, gives, keeps) =
              responded-Answered p buffer result info
                (calculate digests p.auth_calc plugin.name p.params.password challenge (use_ssl p))
                (calculate-HasPlugin p.auth_calc plugin.name p.params.password challenge
                  (use_ssl p)) in
            (r, rw (e, named p.auth_calc plugin h) gives, keeps)
      ]

  typed-Answered :
      (p : HandshakeProcessor) (buffer : List ℕ) (result : AuthResult) (info : ErrorInfo)
      (read : Result (ℕ × List ℕ))
      → HasPlugin p.auth_calc
      → Answered (response_by_type digests p buffer result info read)
  typed-Answered p buffer result info (err code) plugged = (_, refl, λ h. plugged)
  typed-Answered p buffer result info (ok (msg_type, ctx)) plugged =
      elim (Bool-cases (msg_type == 0x00)) [
        | inl e ↦ (left success complete buffer p info, rw e refl, λ h. plugged)
        | inr e ↦ elim (Bool-cases (msg_type == 0xff)) [
          | inl e' ↦
              let t = process_error_packet ctx info in
              (left t.0 result buffer p t.1, rw (e, e') refl, λ h. plugged)
          | inr e' ↦ elim (Bool-cases (msg_type == 0xfe)) [
            | inl e'' ↦
                let (r, gives, keeps) =
                  switch_plugin-Answered p buffer result info
                    (deserialize_message deserialize_auth_switch_request ctx) plugged in
                (r, rw (e, e', e'') gives, keeps)
            | inr e'' ↦ elim (Bool-cases (msg_type == 0x01)) [
              | inl e1 ↦
                  let (r, gives, keeps) =
                    more_data-Answered p buffer result info
                      (deserialize_message deserialize_auth_more_data ctx) plugged in
                  (r, rw (e, e', e'', e1) gives, keeps)
              | inr e1 ↦ (
                left (make_error_code protocol_value_error) result buffer p info,
                rw (e, e', e'', e1) refl,
                λ h. plugged,
              )
            ]
          ]
        ]
      ]

  pub response-Answered :
      (p : HandshakeProcessor) (buffer : List ℕ) (result : AuthResult) (info : ErrorInfo)
      → HasPlugin p.auth_calc
      → Answered (process_handshake_server_response digests p buffer result info)
  unfolding process_handshake_server_response
  response-Answered p buffer result info =
      typed-Answered p buffer result info (deserialize_message_type buffer)
