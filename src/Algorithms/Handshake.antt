-- ===== src/Algorithms/Handshake.antt =====
-- handshake.hpp with impl/handshake.hpp: the connection phase.
pub mod Params
pub mod Processor
pub mod Negotiation
pub mod Accepting
pub mod Exchange
pub mod Leaves
pub mod Recorded
pub mod Secured
pub mod Tests
use mysql_asio.Base.{ℕ, zero, suc, Bool, true, false, List, Option, none, some, if◌then◌else◌}
use mysql_asio.Base.Error.{ErrorCode, ErrorInfo, success, failed}
use mysql_asio.Auth.Digest.{Digests}
use mysql_asio.Algorithms.{MessageLayer, ◌>>=◌}
use mysql_asio.Algorithms.Handshake.Processor.{
  AuthResult, complete, send_more_data, wait_for_ok, invalid, HandshakeProcessor,
  new_handshake_processor, use_ssl, process_handshake, compose_ssl_request,
  compose_handshake_response, ServerResponse, process_handshake_server_response,
}
use mysql_asio.Algorithms.Handshake.Params.{ConnectionParams}

-- What `handshake` leaves.
pub record Handshaken (C : Type 0) : Type 0 where
  pub code : ErrorCode
  pub info : ErrorInfo
  pub channel : C

abbrev pub done : {C : Type 0} → ErrorCode → ErrorInfo → C → Option (Handshaken C)
done code info c = some (record { code = code; info = info; channel = c })

module _ (digests : Digests) {C : Type 0} (layer : MessageLayer C) where
  abbrev pub set_negotiated : HandshakeProcessor → ErrorInfo → C → Option (Handshaken C)
  set_negotiated p info c = done success info (layer.set_current_capabilities p.negotiated_caps c)

  abbrev pub Round : Type 0
  Round = HandshakeProcessor → AuthResult → ErrorInfo → C → Option (Handshaken C)

  -- The end of a round, where `again` is the rest of the loop.
  abbrev pub next_round : Round → AuthResult → ServerResponse → C → Option (Handshaken C)
  next_round again complete r c = set_negotiated r.processor r.info c
  next_round again send_more_data r c = do
    (code, c') ← layer.write r.buffer c
    if failed code then done code r.info c' else again r.processor send_more_data r.info c'
  next_round again wait_for_ok r c = again r.processor wait_for_ok r.info c
  next_round again invalid r c = again r.processor invalid r.info c

  abbrev pub after_answer : Round → ServerResponse → C → Option (Handshaken C)
  after_answer again r c =
      if failed r.code then done r.code r.info c else next_round again r.result r c

  -- The loop, with the number of rounds that are left: a server can ask for data for ever.
  unfoldable pub auth_loop : ℕ → Round
  auth_loop zero p outcome info c = none
  auth_loop (suc fuel) p outcome info c = do
    ((code, buffer), c') ← layer.read c
    if failed code then done code info c' else (do
      r ← process_handshake_server_response digests p buffer outcome info
      after_answer (auth_loop fuel) r c')

  -- From the handshake response on.
  unfoldable pub authenticate : ℕ → HandshakeProcessor → ErrorInfo → C → Option (Handshaken C)
  authenticate fuel p info c = do
    response ← compose_handshake_response p
    (code, c') ← layer.write response c
    if failed code then done code info c' else auth_loop fuel p invalid info c'

  abbrev pub after_tls : ℕ → HandshakeProcessor → ErrorInfo → ErrorCode × C → Option (Handshaken C)
  after_tls fuel p info (code, c) =
      if failed code then done code info c else authenticate fuel p info c

  unfoldable pub set_up_tls : ℕ → HandshakeProcessor → ErrorInfo → C → Option (Handshaken C)
  set_up_tls fuel p info c = do
    (code, c') ← layer.write (compose_ssl_request p) c
    if failed code then done code info c' else after_tls fuel p info (layer.ssl_handshake c')

  abbrev pub after_greeting :
      ℕ → ErrorCode × HandshakeProcessor × ErrorInfo → C → Option (Handshaken C)
  after_greeting fuel (code, p, info) c =
      if failed code
      then done code info c
      else if use_ssl p
      then set_up_tls fuel p info c
      else authenticate fuel p info c

  unfoldable pub handshake : ℕ → ConnectionParams → ErrorInfo → C → Option (Handshaken C)
  handshake fuel params info c = do
    ((code, buffer), c') ← layer.read c
    if failed code
        then done code info c'
        else after_greeting fuel
            (process_handshake digests (new_handshake_processor params) buffer info) c'
