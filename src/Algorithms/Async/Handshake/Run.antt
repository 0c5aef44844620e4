-- ===== src/Algorithms/Async/Handshake/Run.antt =====
-- `handshake_op` against `handshake`.
use mysql_asio.Base.{ℕ, suc, ◌≡◌, refl, List, [], none, some, Bool-cases, inl, inr, if◌then◌else◌}
use mysql_asio.Base.Error.{ErrorCode, ErrorInfo, failed}
use mysql_asio.Auth.Digest.{Digests}
use mysql_asio.Algorithms.{MessageLayer, >>=-eq-some}
use mysql_asio.Algorithms.Handshake.Processor.{
  invalid, HandshakeProcessor, new_handshake_processor, use_ssl, process_handshake,
  compose_ssl_request, compose_handshake_response,
}
use mysql_asio.Algorithms.Handshake.Params.{ConnectionParams}
use mysql_asio.Algorithms.Handshake.{
  Handshaken, done, auth_loop, authenticate, after_tls, set_up_tls, after_greeting, handshake,
}
use mysql_asio.Algorithms.Async.{async_write, async_ssl_handshake, perform}
use mysql_asio.Algorithms.Async.Handshake.{
  HandshakePoint, greeting_read, ssl_done, ssl_request_written, send_response, greeting_processed,
  handshake_op, run_handshake, async_handshake,
}
use mysql_asio.Algorithms.Async.Handshake.Loop.{Ends, failed-Ends, resumed, holding, auth_loop-Ends}

module _ (digests : Digests) {C : Type 0} (layer : MessageLayer C) where
  -- Behind the write of the handshake response.
  response_sent-Ends :
      (fuel : ℕ) (p : HandshakeProcessor) (info : ErrorInfo) (buffer response : List ℕ)
      (point : HandshakePoint) (c c' : C) (code : ErrorCode) (r : Handshaken C)
      → compose_handshake_response p ≡ some response
      → layer.write response c ≡ some (code, c')
      → (if failed code then done code info c' else auth_loop digests layer fuel p invalid info c')
        ≡ some r
      → (calls : ℕ) × Ends digests layer r (
          resumed digests layer calls buffer
            (send_response digests layer (holding digests layer point p invalid) c))
  unfolding run_handshake handshake_op compose_handshake_response
  response_sent-Ends fuel p info buffer response point c c' code r composed sent h =
      elim (Bool-cases (failed code)) [
        | inl e ↦ (
          1,
          failed-Ends digests layer code info c' c' r none _ e (rw e at h)
              (rw (composed, sent, e) refl),
        )
        | inr e ↦
            let (calls, ends) =
              auth_loop-Ends digests layer fuel p invalid info buffer c' r (rw e at h) in
            (suc calls, rw (composed, sent, e) ends)
      ]

  authenticate-Ends :
      (fuel : ℕ) (p : HandshakeProcessor) (info : ErrorInfo) (buffer : List ℕ)
      (point : HandshakePoint) (c : C) (r : Handshaken C)
      → authenticate digests layer fuel p info c ≡ some r
      → (calls : ℕ) × Ends digests layer r (
          resumed digests layer calls buffer
            (send_response digests layer (holding digests layer point p invalid) c))
  unfolding authenticate
  authenticate-Ends fuel p info buffer point c r h =
      let (response, composed, h1) = >>=-eq-some (compose_handshake_response p) _ h in
      let ((code, c'), sent, h2) = >>=-eq-some (layer.write response c) _ h1 in
      response_sent-Ends fuel p info buffer response point c c' code r composed sent h2

  -- Behind the TLS handshake.
  secured-Ends :
      (fuel : ℕ) (p : HandshakeProcessor) (info : ErrorInfo) (buffer : List ℕ) (c c' : C)
      (code : ErrorCode) (r : Handshaken C)
      → layer.ssl_handshake c ≡ (code, c')
      → after_tls digests layer fuel p info (code, c') ≡ some r
      → (calls : ℕ) × Ends digests layer r (
          perform layer
            (run_handshake digests layer calls)
            buffer
            (async_ssl_handshake, holding digests layer ssl_done p invalid, c))
  unfolding run_handshake handshake_op
  secured-Ends fuel p info buffer c c' code r secured h = elim (Bool-cases (failed code)) [
    | inl e ↦
        (1, failed-Ends digests layer code info c' c' r none _ e (rw e at h) (rw (secured, e) refl))
    | inr e ↦
        let (calls, ends) = authenticate-Ends fuel p info buffer ssl_done c' r (rw e at h) in
        (suc calls, rw (secured, e) ends)
  ]

  -- Behind the write of the SSL request.
  request_sent-Ends :
      (fuel : ℕ) (p : HandshakeProcessor) (info : ErrorInfo) (buffer : List ℕ) (c c' : C)
      (code : ErrorCode) (r : Handshaken C)
      → layer.write (compose_ssl_request p) c ≡ some (code, c')
      → (if failed code
          then done code info c'
          else after_tls digests layer fuel p info (layer.ssl_handshake c'))
        ≡ some r
      → (calls : ℕ) × Ends digests layer r (
          perform layer (run_handshake digests layer calls) buffer (
            async_write (compose_ssl_request p),
            holding digests layer ssl_request_written p invalid,
            c,
          ))
  unfolding run_handshake handshake_op
  request_sent-Ends fuel p info buffer c c' code r sent h = elim (Bool-cases (failed code)) [
    | inl e ↦
        (1, failed-Ends digests layer code info c' c' r none _ e (rw e at h) (rw (sent, e) refl))
    | inr e ↦
        let tls = layer.ssl_handshake c' in
        let (calls, ends) = secured-Ends fuel p info buffer c' tls.1 tls.0 r refl (rw e at h) in
        (suc calls, rw (sent, e) ends)
  ]

  set_up_tls-Ends :
      (fuel : ℕ) (p : HandshakeProcessor) (info : ErrorInfo) (buffer : List ℕ) (c : C)
      (r : Handshaken C)
      → set_up_tls digests layer fuel p info c ≡ some r
      → (calls : ℕ) × Ends digests layer r (
          perform layer (run_handshake digests layer calls) buffer (
            async_write (compose_ssl_request p),
            holding digests layer ssl_request_written p invalid,
            c,
          ))
  unfolding set_up_tls
  set_up_tls-Ends fuel p info buffer c r h =
      let ((code, c'), sent, h') = >>=-eq-some (layer.write (compose_ssl_request p) c) _ h in
      request_sent-Ends fuel p info buffer c c' code r sent h'

  -- Behind the greeting.
  greeted-Ends :
      (fuel : ℕ) (code : ErrorCode) (p : HandshakeProcessor) (info : ErrorInfo) (buffer : List ℕ)
      (q : HandshakeProcessor) (c : C) (r : Handshaken C)
      → after_greeting digests layer fuel (code, p, info) c ≡ some r
      → (calls : ℕ) × Ends digests layer r (
          resumed digests layer calls buffer (
            greeting_processed digests layer
              (holding digests layer greeting_read q invalid)
              (code, p, info)
              c))
  greeted-Ends fuel code p info buffer q c r h = elim (Bool-cases (failed code)) [
    | inl e ↦ (
      0,
      failed-Ends digests layer code info c (layer.set_current_capabilities p.negotiated_caps c) r
          (some info) _ e (rw e at h) (rw e refl),
    )
    | inr e ↦
        let h' = rw e at h in
        elim (Bool-cases (use_ssl p)) [
          | inl tls ↦
              let (calls, ends) = set_up_tls-Ends fuel p info buffer c r (rw tls at h') in
              (calls, rw (e, tls) ends)
          | inr plain ↦
              let (calls, ends) =
                authenticate-Ends fuel p info buffer greeting_read c r (rw plain at h') in
              (calls, rw (e, plain) ends)
        ]
  ]

  greeting_received-Ends :
      (fuel : ℕ) (params : ConnectionParams) (message : List ℕ) (c c' : C) (code : ErrorCode)
      (r : Handshaken C)
      → layer.read c ≡ some ((code, message), c')
      → (if failed code
          then done code [] c'
          else after_greeting digests layer fuel
              (process_handshake digests (new_handshake_processor params) message [])
              c')
        ≡ some r
      → (calls : ℕ) × Ends digests layer r (async_handshake digests layer calls params c)
  unfolding async_handshake run_handshake handshake_op
  greeting_received-Ends fuel params message c c' code r received h =
      elim (Bool-cases (failed code)) [
        | inl e ↦ (
          2,
          failed-Ends digests layer code [] c' c' r none _ e (rw e at h) (rw (received, e) refl),
        )
        | inr e ↦
            let greeted = process_handshake digests (new_handshake_processor params) message [] in
            let (calls, ends) =
              greeted-Ends fuel greeted.0 greeted.1 greeted.2 message
                (new_handshake_processor params) c' r (rw e at h) in
            (suc (suc calls), rw (received, e) ends)
      ]

  -- When `handshake` returns, its asynchronous operation completes, after finitely many calls, with
  -- the same code, and after a success it leaves the channel in the same state.
  pub handshake-run :
      (fuel : ℕ) (params : ConnectionParams) (c : C) (r : Handshaken C)
      → handshake digests layer fuel params [] c ≡ some r
      → (calls : ℕ) × Ends digests layer r (async_handshake digests layer calls params c)
  unfolding handshake
  handshake-run fuel params c r h =
      let (((code, message), c'), received, h') = >>=-eq-some (layer.read c) _ h in
      greeting_received-Ends fuel params message c c' code r received h'
