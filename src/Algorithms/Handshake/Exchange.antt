-- ===== src/Algorithms/Handshake/Exchange.antt =====
-- The connection phase with a server that accepts the client.
use mysql_asio.Base.{
  ℕ, zero, suc, ◌≤◌, ◌≡◌, refl, ap, ◌∙◌, Bool, true, false, List, [], ◌∷◌, ◌++◌, some, arith, inl,
  inr, Bool-cases, subst,
}
use mysql_asio.Base.Error.{ok, ErrorInfo, success}
use mysql_asio.Serialization.Message.{deserialize_message-ok}
use mysql_asio.Messages.Handshake.{HandshakePacket, deserialize_handshake_packet}
use mysql_asio.Resultset.Processing.{message_type_of}
use mysql_asio.Auth.Digest.{Digests}
use mysql_asio.Auth.{AuthCalculator, plugin_name, calculate}
use mysql_asio.Algorithms.{MessageLayer}
use mysql_asio.Algorithms.Dialogue.{Turn, client, server, tls, Follows}
use mysql_asio.Algorithms.Handshake.Processor.{
  AuthResult, send_more_data, wait_for_ok, invalid, HandshakeProcessor, new_handshake_processor,
  use_ssl, process_capabilities, process_handshake, compose_ssl_request, compose_handshake_response,
}
use mysql_asio.Algorithms.Handshake.Params.{ConnectionParams, deserialize_handshake}
use mysql_asio.Algorithms.Handshake.Accepting.{
  Accepts, answer_accepted, answer_announced, answer_switched, answer_asked, accepted, announces,
  switches, asks,
}
use mysql_asio.Algorithms.Handshake.{done, auth_loop, authenticate, set_up_tls, handshake}

module _ (digests : Digests) {C : Type 0} (layer : MessageLayer C) where
  auth_loop-Accepts :
      {n : ℕ} {calc : AuthCalculator} {turns : List Turn} (p : HandshakeProcessor) (fuel : ℕ)
      (result : AuthResult) (info : ErrorInfo) (c : C) (rest : List Turn)
      → p.auth_calc ≡ calc
      → Accepts digests p.params.password (use_ssl p) n calc turns
      → n ≤ fuel
      → Follows layer c (turns ++ rest)
      → (c' : C) × (auth_loop digests layer fuel p result info c
          ≡ done success info (layer.set_current_capabilities p.negotiated_caps c'))
        × Follows layer c' rest
  unfolding auth_loop use_ssl
  auth_loop-Accepts p zero result info c rest same (accepted body) h follows = absurd (omega arith)
  auth_loop-Accepts p zero result info c rest same (announces a) h follows = absurd (omega arith)
  auth_loop-Accepts p zero result info c rest same (switches body request calc' read computed a) h
        follows =
      absurd (omega arith)
  auth_loop-Accepts p zero result info c rest same
        (asks challenge name calc' other named computed a) h follows =
      absurd (omega arith)
  auth_loop-Accepts p (suc fuel) result info c rest same (accepted body) h (c', received, follows) =
      (c', rw (received, answer_accepted digests p result info body) refl, follows)
  auth_loop-Accepts p (suc fuel) result info c rest same (announces a) h (c', received, follows) =
      let (last, e, f) =
        auth_loop-Accepts p fuel wait_for_ok info c' rest same a (omega arith) follows in
      (last, rw (received, answer_announced digests p result info) e, f)
  auth_loop-Accepts p (suc fuel) result info c rest same
        (switches body request calc' read computed a) h (c1, received, (c2, sent, follows)) =
      let (last, e, f) =
        auth_loop-Accepts (record p { auth_calc = calc' }) fuel send_more_data info c2 rest refl a
          (omega arith) follows in
      let answer = answer_switched digests p result info body request calc' read (
        ap
          (λ k.
            calculate digests k request.plugin_name p.params.password request.auth_plugin_data
              (use_ssl p))
          same
        ∙ computed) in
      (last, rw (received, answer, sent) e, f)
  auth_loop-Accepts p (suc fuel) result info c rest same
        (asks challenge name calc' other named computed a) h (c1, received, (c2, sent, follows)) =
      let (last, e, f) =
        auth_loop-Accepts (record p { auth_calc = calc' }) fuel send_more_data info c2 rest refl a
          (omega arith) follows in
      let answer =
        answer_asked digests p result info challenge name calc' other (ap plugin_name same ∙ named)
          (ap (λ k. calculate digests k name p.params.password challenge (use_ssl p)) same
            ∙ computed) in
      (last, rw (received, answer, sent) e, f)

-- The turns between the greeting and the client's response.
abbrev pub tls_turns : HandshakeProcessor → Bool → List Turn
tls_turns p true = client (compose_ssl_request p) ∷ tls ∷ []
tls_turns p false = []

module _ (digests : Digests) (params : ConnectionParams) where
  pub greeting_processed :
      (info : ErrorInfo) (body : List ℕ) (greeting : HandshakePacket) (p : HandshakeProcessor)
      (calc : AuthCalculator)
      → deserialize_handshake_packet body ≡ ok (greeting, [])
      → process_capabilities (new_handshake_processor params) greeting ≡ (success, p)
      → calculate digests p.auth_calc greeting.auth_plugin_name p.params.password
          greeting.auth_plugin_data
          (use_ssl p)
        ≡ (success, calc)
      → process_handshake digests (new_handshake_processor params) (10 ∷ body) info
        ≡ (success, record p { auth_calc = calc }, info)
  unfolding process_handshake deserialize_handshake
  greeting_processed info body greeting p calc read capable computed =
      rw
        (
          message_type_of 10 body,
          deserialize_message-ok deserialize_handshake_packet body greeting read,
          capable,
          computed,
        )
        refl

module _ (digests : Digests) {C : Type 0} (layer : MessageLayer C) (params : ConnectionParams) where
  -- A server sends a greeting of version 10 whose capabilities are accepted and whose plugin gives a
  -- response, goes through the TLS handshake if it was negotiated, takes the handshake response, and
  -- accepts the client in n rounds. Then `handshake` on fuel of at least n succeeds, leaves the error
  -- info alone, stores the negotiated capabilities in the channel, and leaves the server's later
  -- turns to come.
  pub handshake-Accepts :
      (info : ErrorInfo) (body : List ℕ) (greeting : HandshakePacket) (p : HandshakeProcessor)
      (calc : AuthCalculator) (response : List ℕ) {n : ℕ} {turns : List Turn} (fuel : ℕ) (c : C)
      (rest : List Turn)
      → deserialize_handshake_packet body ≡ ok (greeting, [])
      → process_capabilities (new_handshake_processor params) greeting ≡ (success, p)
      → calculate digests p.auth_calc greeting.auth_plugin_name p.params.password
          greeting.auth_plugin_data
          (use_ssl p)
        ≡ (success, calc)
      → compose_handshake_response (record p { auth_calc = calc }) ≡ some response
      → Accepts digests p.params.password (use_ssl p) n calc turns
      → n ≤ fuel
      → Follows layer c
          (server (10 ∷ body) ∷ (tls_turns p (use_ssl p) ++ (client response ∷ (turns ++ rest))))
      → (c' : C) × (handshake digests layer fuel params info c
          ≡ done success info (layer.set_current_capabilities p.negotiated_caps c'))
        × Follows layer c' rest
  unfolding handshake authenticate set_up_tls use_ssl compose_ssl_request
  handshake-Accepts info body greeting p calc response {turns = turns} fuel c rest read capable
        computed composed accepts enough (c1, received, follows) =
      let first =
        greeting_processed digests params info body greeting p calc read capable computed in
      elim (Bool-cases (use_ssl p)) [
        | inl e ↦
            let (c2, asked, (c3, secured, (c4, sent, behind))) =
              subst (λ b. Follows layer c1 (tls_turns p b ++ (client response ∷ (turns ++ rest)))) e
                follows in
            let (last, e', f) =
              auth_loop-Accepts digests layer (record p { auth_calc = calc }) fuel invalid info c4
                rest refl accepts enough behind in
            (last, rw (received, first, e, asked, secured, composed, sent) e', f)
        | inr e ↦
            let (c4, sent, behind) =
              subst (λ b. Follows layer c1 (tls_turns p b ++ (client response ∷ (turns ++ rest)))) e
                follows in
            let (last, e', f) =
              auth_loop-Accepts digests layer (record p { auth_calc = calc }) fuel invalid info c4
                rest refl accepts enough behind in
            (last, rw (received, first, e, composed, sent) e', f)
      ]
