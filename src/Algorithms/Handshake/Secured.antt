-- ===== src/Algorithms/Handshake/Secured.antt =====
-- What is sent before the TLS handshake.
use mysql_asio.Base.{
  ℕ, zero, suc, ◌%◌, ◌^◌, ◌≡◌, refl, sym, ap, ◌∙◌, subst, true, false, List, [], ◌∷◌, ◌++◌, Option,
  some, Bool-cases, inl, inr, ◌⊎◌,
}
use mysql_asio.Base.Error.{ErrorCode, ErrorInfo, success, failed}
use mysql_asio.Capabilities.{has, has_all, client_ssl}
use mysql_asio.Messages.Handshake.{HandshakePacket}
use mysql_asio.Auth.Digest.{Digests}
use mysql_asio.Algorithms.{MessageLayer}
use mysql_asio.Algorithms.Dialogue.{Turn, client}
use mysql_asio.Algorithms.Handshake.Processor.{
  AuthResult, complete, send_more_data, wait_for_ok, invalid, HandshakeProcessor,
  new_handshake_processor, use_ssl, is_empty, required_capabilities, process_capabilities,
  process_greeting, process_handshake, compose_ssl_request, compose_handshake_response,
  ServerResponse, process_handshake_server_response,
}
use mysql_asio.Algorithms.Handshake.Params.{require, ConnectionParams, deserialize_handshake}
use mysql_asio.Algorithms.Handshake.Negotiation.{process_capabilities-Negotiated, tls_expected}
use mysql_asio.Algorithms.Handshake.{
  Handshaken, Round, next_round, auth_loop, authenticate, set_up_tls, after_tls, after_greeting,
  handshake,
}
use mysql_asio.Algorithms.Handshake.Recorded.{
  recorded_tls, recorded, IsSslRequest, Guarded, Sealed, Sealed-Guarded, Sealed-append,
  recorded_read-log, recorded_write-log,
}
use mysql_asio.Algorithms.Handshake.Leaves.{Leaves, Leaves-done, Leaves-if, Leaves-bind}

module _ (digests : Digests) {C : Type 0} (layer : MessageLayer C) where
  abbrev IsSealed : C × List Turn → Type 0
  IsSealed s = Sealed s.1

  abbrev AgainSealed : Round digests (recorded layer) → Type 0
  AgainSealed again =
      (p : HandshakeProcessor) (outcome : AuthResult) (info : ErrorInfo) (s : C × List Turn)
      → IsSealed s
      → Leaves IsSealed (again p outcome info s)

  next_round-Sealed :
      (again : Round digests (recorded layer)) (result : AuthResult) (r : ServerResponse)
      (s : C × List Turn)
      → AgainSealed again
      → IsSealed s
      → Leaves IsSealed (next_round digests (recorded layer) again result r s)
  next_round-Sealed again complete r s h sealed =
      Leaves-done IsSealed success r.info
        ((recorded layer).set_current_capabilities r.processor.negotiated_caps s) sealed
  next_round-Sealed again send_more_data r s h sealed =
      Leaves-bind IsSealed ((recorded layer).write r.buffer s) _ (λ (code, s') e.
        let sealed' : IsSealed s' =
          subst Sealed
            (sym (
              recorded_write-log (s.1 ++ (client r.buffer ∷ [])) (layer.write r.buffer s.0)
                (code, s') e))
            (Sealed-append s.1 (client r.buffer ∷ []) sealed) in
        Leaves-if IsSealed (failed code) _ _ (λ _. Leaves-done IsSealed code r.info s' sealed')
          (λ _. h r.processor send_more_data r.info s' sealed'))
  next_round-Sealed again wait_for_ok r s h sealed = h r.processor wait_for_ok r.info s sealed
  next_round-Sealed again invalid r s h sealed = h r.processor invalid r.info s sealed

  auth_loop-Sealed : (fuel : ℕ) → AgainSealed (auth_loop digests (recorded layer) fuel)
  unfolding auth_loop
  auth_loop-Sealed zero p outcome info s sealed = λ r e. cc
  auth_loop-Sealed (suc fuel) p outcome info s sealed =
      Leaves-bind IsSealed ((recorded layer).read s) _ (λ ((code, buffer), s') e.
        let sealed' : IsSealed s' =
          subst Sealed (sym (recorded_read-log s.1 (layer.read s.0) ((code, buffer), s') e))
            sealed in
        Leaves-if IsSealed (failed code) _ _ (λ _. Leaves-done IsSealed code info s' sealed')
          (λ _.
            Leaves-bind IsSealed (process_handshake_server_response digests p buffer outcome info) _
              (λ r _.
                Leaves-if IsSealed (failed r.code) _ _
                  (λ _. Leaves-done IsSealed r.code r.info s' sealed')
                  (λ _.
                    next_round-Sealed (auth_loop digests (recorded layer) fuel) r.result r s'
                      (auth_loop-Sealed fuel) sealed'))))

  authenticate-Sealed :
      (fuel : ℕ) (p : HandshakeProcessor) (info : ErrorInfo) (s : C × List Turn)
      → IsSealed s
      → Leaves IsSealed (authenticate digests (recorded layer) fuel p info s)
  unfolding authenticate
  authenticate-Sealed fuel p info s sealed =
      Leaves-bind IsSealed (compose_handshake_response p) _ (λ response _.
        Leaves-bind IsSealed ((recorded layer).write response s) _ (λ (code, s') e.
          let sealed' : IsSealed s' =
            subst Sealed
              (sym (
                recorded_write-log (s.1 ++ (client response ∷ [])) (layer.write response s.0)
                  (code, s') e))
              (Sealed-append s.1 (client response ∷ []) sealed) in
          Leaves-if IsSealed (failed code) _ _ (λ _. Leaves-done IsSealed code info s' sealed')
            (λ _. auth_loop-Sealed fuel p invalid info s' sealed')))

  abbrev IsGuarded : C × List Turn → Type 0
  IsGuarded s = Guarded s.1

  request_sent : (p : HandshakeProcessor) → IsSslRequest (compose_ssl_request p)
  unfolding compose_ssl_request
  request_sent p = (
    record {
      client_flag = p.negotiated_caps;
      max_packet_size = 0xffffff;
      character_set = p.params.connection_collation % 2 ^ 16 % 0xff;
    },
    refl,
  )

  Leaves-Guarded :
      (o : Option (Handshaken (C × List Turn))) → Leaves IsSealed o → Leaves IsGuarded o
  Leaves-Guarded o h r e = Sealed-Guarded r.channel.1 (h r e)

  after_tls-Guarded :
      (fuel : ℕ) (p : HandshakeProcessor) (info : ErrorInfo) (message : List ℕ) (t : ErrorCode × C)
      → IsSslRequest message
      → Leaves IsGuarded
          (after_tls digests (recorded layer) fuel p info (recorded_tls (client message ∷ []) t))
  after_tls-Guarded fuel p info message (code, c) request =
      Leaves-if IsGuarded (failed code) _ _
        (λ e. Leaves-done IsGuarded code info _ (rw e (request, tt)))
        (λ e. Leaves-Guarded _ (authenticate-Sealed fuel p info _ (rw e (request, tt))))

  set_up_tls-Guarded :
      (fuel : ℕ) (p : HandshakeProcessor) (info : ErrorInfo) (s : C × List Turn)
      → s.1 ≡ []
      → Leaves IsGuarded (set_up_tls digests (recorded layer) fuel p info s)
  unfolding set_up_tls
  set_up_tls-Guarded fuel p info (c, log) empty =
      Leaves-bind IsGuarded ((recorded layer).write (compose_ssl_request p) (c, log)) _
        (λ (code, s') e.
          let written : s'.1 ≡ client (compose_ssl_request p) ∷ [] =
            recorded_write-log (log ++ (client (compose_ssl_request p) ∷ []))
              (layer.write (compose_ssl_request p) c) (code, s') e
            ∙ ap (λ l. l ++ (client (compose_ssl_request p) ∷ [])) empty in
          Leaves-if IsGuarded (failed code) _ _
            (λ _.
              Leaves-done IsGuarded code info s' (subst Guarded (sym written) (request_sent p, tt)))
            (λ _.
              subst
                (λ l. Leaves IsGuarded (
                  after_tls digests (recorded layer) fuel p info
                    (recorded_tls l (layer.ssl_handshake s'.0))))
                (sym written)
                (after_tls-Guarded fuel p info (compose_ssl_request p) (layer.ssl_handshake s'.0)
                  (request_sent p))))

  after_greeting-Guarded :
      (fuel : ℕ) (t : ErrorCode × HandshakeProcessor × ErrorInfo) (s : C × List Turn)
      → s.1 ≡ []
      → (failed t.0 ≡ false → use_ssl t.1 ≡ true)
      → Leaves IsGuarded (after_greeting digests (recorded layer) fuel t s)
  after_greeting-Guarded fuel (code, p, info) s empty tls_used =
      Leaves-if IsGuarded (failed code) _ _
        (λ _. Leaves-done IsGuarded code info s (subst Guarded (sym empty) tt))
        (λ e.
          Leaves-if IsGuarded (use_ssl p) _ _ (λ _. set_up_tls-Guarded fuel p info s empty)
            (λ e'. (let h = tls_used e in cc)))

-- The greeting is not processed without an error unless TLS is used.
capabilities_cases :
    (p : HandshakeProcessor) (handshake : HandshakePacket)
    → (failed (process_capabilities p handshake).0 ≡ true)
      ⊎ (process_capabilities p handshake ≡ (success, (process_capabilities p handshake).1))
unfolding process_capabilities
capabilities_cases p handshake =
    elim (Bool-cases (
      has_all handshake.capability_flags
        (required_capabilities p.params.ssl (is_empty p.params.database)))) [
          | inl e ↦ inr (rw e refl)
          | inr e ↦ inl (rw e refl)
        ]

process_greeting-use_ssl :
    (digests : Digests) (p : HandshakeProcessor) (read : ErrorCode × HandshakePacket × ErrorInfo)
    → p.params.ssl ≡ require
    → failed (process_greeting digests p read).0 ≡ false
    → use_ssl (process_greeting digests p read).1 ≡ true
unfolding use_ssl
process_greeting-use_ssl digests p (code, packet, info) mode h = elim (Bool-cases (failed code)) [
  | inl e ↦ let h' = rw e at h in cc
  | inr e ↦ elim (capabilities_cases p packet) [
    | inl e' ↦ let h' = rw (e, e') at h in cc
    | inr e' ↦
        let (within, mandatory, database, tls_used) =
          process_capabilities-Negotiated p packet (process_capabilities p packet).1 e' in
        let went_on : failed (process_capabilities p packet).0 ≡ false =
          ap (λ (r : ErrorCode × HandshakeProcessor). failed r.0) e' in
        rw (e, went_on)
          (tls_used ∙ ap (λ mode. tls_expected mode (has packet.capability_flags client_ssl)) mode)
  ]
]

module _ (digests : Digests) {C : Type 0} (layer : MessageLayer C) where
  -- With ssl_mode::require, whatever the server sends and whichever operations fail: when `handshake`
  -- returns, with an error or without, all that it has written before a successful TLS handshake is
  -- SSL requests, which hold no credentials.
  pub handshake-Guarded :
      (fuel : ℕ) (params : ConnectionParams) (info : ErrorInfo) (c : C)
      (r : Handshaken (C × List Turn))
      → params.ssl ≡ require
      → handshake digests (recorded layer) fuel params info (c, []) ≡ some r
      → Guarded r.channel.1
  unfolding handshake process_handshake
  handshake-Guarded fuel params info c r mode e =
      Leaves-bind (IsGuarded digests layer) ((recorded layer).read (c, [])) _
        (λ ((code, buffer), s) e'.
          let nothing_sent : s.1 ≡ [] =
            recorded_read-log [] (layer.read c) ((code, buffer), s) e' in
          Leaves-if (IsGuarded digests layer) (failed code) _ _
            (λ _.
              Leaves-done (IsGuarded digests layer) code info s
                (subst Guarded (sym nothing_sent) tt))
            (λ _.
              after_greeting-Guarded digests layer fuel
                (process_handshake digests (new_handshake_processor params) buffer info) s
                nothing_sent
                (process_greeting-use_ssl digests (new_handshake_processor params)
                  (deserialize_handshake buffer info) mode)))
        r e
