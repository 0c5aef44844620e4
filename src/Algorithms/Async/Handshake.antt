-- ===== src/Algorithms/Async/Handshake.antt =====
-- `handshake_op` of impl/handshake.hpp.
pub mod Answers
pub mod Plugin
pub mod Answered
pub mod Loop
pub mod Run
use mysql_asio.Base.{
  ℕ, zero, suc, ◌≡◌, ◌≢◌, refl, sym, ap, subst, Bool, true, false, List, [], Option, none, some,
  Bool-cases, inl, inr, if◌then◌else◌,
}
use mysql_asio.Base.Error.{ErrorCode, ErrorInfo, success, failed}
use mysql_asio.Auth.Digest.{Digests}
use mysql_asio.Algorithms.{MessageLayer, ◌>>=◌}
use mysql_asio.Algorithms.Handshake.Processor.{
  AuthResult, complete, send_more_data, wait_for_ok, invalid, HandshakeProcessor,
  new_handshake_processor, use_ssl, process_handshake, compose_ssl_request,
  compose_handshake_response, ServerResponse, process_handshake_server_response,
}
use mysql_asio.Algorithms.Handshake.Params.{ConnectionParams}
use mysql_asio.Algorithms.Async.{
  Yielded, async_read, async_write, async_ssl_handshake, completed, perform,
}

-- The points where the operation goes on; `over` is behind its end, where it is not called again.
pub data HandshakePoint : Type 0 where
  at_start greeting_read ssl_request_written ssl_done response_written answer_read data_written
        over :
      HandshakePoint

pub record HandshakeOp : Type 0 where
  pub point : HandshakePoint
  pub processor : HandshakeProcessor
  pub auth_state : AuthResult

-- The code and what is assigned to the caller's info, if something is.
abbrev pub HandshakeOut : Type 0
HandshakeOut = ErrorCode × Option ErrorInfo

abbrev pub new_handshake_op : ConnectionParams → HandshakeOp
new_handshake_op params = record {
  point = at_start;
  processor = new_handshake_processor params;
  auth_state = invalid;
}

module _ (digests : Digests) {C : Type 0} (layer : MessageLayer C) where
  -- `none` for a null pointer that is followed.
  abbrev pub Resumed : Type 0
  Resumed = Option (Yielded HandshakeOut × HandshakeOp × C)

  -- `complete`, which sets the capabilities in any case.
  abbrev pub complete_handshake : HandshakeOp → ErrorCode → ErrorInfo → C → Resumed
  complete_handshake op code info c = some (
    completed (code, some info),
    record op { point = over },
    layer.set_current_capabilities op.processor.negotiated_caps c,
  )

  abbrev pub yield_at : HandshakePoint → HandshakeOp → Yielded HandshakeOut → C → Resumed
  yield_at point op started c = some (started, record op { point = point }, c)

  abbrev pub send_response : HandshakeOp → C → Resumed
  send_response op c = elim (compose_handshake_response op.processor) [
    | none ↦ none
    | some response ↦ yield_at response_written op (async_write response) c
  ]

  abbrev pub greeting_processed :
      HandshakeOp → ErrorCode × HandshakeProcessor × ErrorInfo → C → Resumed
  greeting_processed op (code, p, info) c =
      let op' = record op { processor = p } in
      if failed code
      then complete_handshake op' code info c
      else if use_ssl p
      then yield_at ssl_request_written op' (async_write (compose_ssl_request p)) c
      else send_response op' c

  -- The head of the loop.
  abbrev pub loop_head : HandshakeOp → AuthResult → C → Resumed
  loop_head op complete c = complete_handshake op success [] c
  loop_head op send_more_data c = yield_at answer_read op async_read c
  loop_head op wait_for_ok c = yield_at answer_read op async_read c
  loop_head op invalid c = yield_at answer_read op async_read c

  abbrev pub answer_kept : HandshakeOp → List ℕ → AuthResult → C → Resumed
  answer_kept op buffer send_more_data c = yield_at data_written op (async_write buffer) c
  answer_kept op buffer complete c = loop_head op complete c
  answer_kept op buffer wait_for_ok c = loop_head op wait_for_ok c
  answer_kept op buffer invalid c = loop_head op invalid c

  abbrev pub answer_processed : HandshakeOp → Option ServerResponse → C → Resumed
  answer_processed op none c = none
  answer_processed op (some r) c =
      let op' = record op { processor = r.processor; auth_state = r.result } in
      if failed r.code
      then complete_handshake op' r.code r.info c
      else answer_kept op' r.buffer r.result c

  abbrev pub resume_handshake : HandshakePoint → HandshakeOp → List ℕ → C → Resumed
  resume_handshake at_start op buffer c = yield_at greeting_read op async_read c
  resume_handshake greeting_read op buffer c =
      greeting_processed op (process_handshake digests op.processor buffer []) c
  resume_handshake ssl_request_written op buffer c = yield_at ssl_done op async_ssl_handshake c
  resume_handshake ssl_done op buffer c = send_response op c
  resume_handshake response_written op buffer c = loop_head op op.auth_state c
  resume_handshake answer_read op buffer c =
      answer_processed op
        (process_handshake_server_response digests op.processor buffer op.auth_state []) c
  resume_handshake data_written op buffer c = loop_head op op.auth_state c
  resume_handshake over op buffer c =
      some (completed (success, none), record op { point = over }, c)

  unfoldable pub handshake_op : HandshakeOp → ErrorCode → List ℕ → C → Resumed
  handshake_op op code buffer c =
      if failed code
      then some (completed (code, none), record op { point = over }, c)
      else resume_handshake op.point op buffer c

  -- The calls of an operation up to its end, if they are no more than the fuel.
  unfoldable pub run_handshake :
      ℕ → HandshakeOp → ErrorCode → List ℕ → C → Option (HandshakeOut × C)
  run_handshake zero op code buffer c = none
  run_handshake (suc fuel) op code buffer c = do
    started ← handshake_op op code buffer c
    perform layer (run_handshake fuel) buffer started

  unfoldable pub async_handshake : ℕ → ConnectionParams → C → Option (HandshakeOut × C)
  async_handshake fuel params c = run_handshake fuel (new_handshake_op params) success [] c
