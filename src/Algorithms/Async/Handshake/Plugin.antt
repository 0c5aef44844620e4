-- ===== src/Algorithms/Async/Handshake/Plugin.antt =====
-- The plugin of the authentication calculator, through every run of `handshake_op`: whatever the server
-- sends and however the operations that it starts end.
use mysql_asio.Base.{
  ℕ, ◌≡◌, refl, sym, ap, ◌∙◌, subst, false, List, [], Option, none, some, Bool-cases, inl, inr,
}
use mysql_asio.Base.Error.{ErrorCode, ErrorInfo, success, failed}
use mysql_asio.Auth.Digest.{Digests}
use mysql_asio.Auth.{AuthCalculator}
use mysql_asio.Algorithms.{MessageLayer, some_injective}
use mysql_asio.Algorithms.Handshake.Processor.{
  AuthResult, complete, send_more_data, wait_for_ok, invalid, HandshakeProcessor, use_ssl,
  process_handshake, compose_ssl_request, ServerResponse, process_handshake_server_response,
}
use mysql_asio.Algorithms.Handshake.Params.{ConnectionParams, deserialize_handshake}
use mysql_asio.Algorithms.Async.{Yielded, async_read, async_write, async_ssl_handshake, completed}
use mysql_asio.Algorithms.Async.Handshake.{
  HandshakePoint, at_start, greeting_read, ssl_request_written, ssl_done, response_written,
  answer_read, data_written, over, HandshakeOp, HandshakeOut, new_handshake_op, Resumed,
  send_response, greeting_processed, complete_handshake, loop_head, answer_kept, answer_processed,
  resume_handshake, handshake_op,
}
use mysql_asio.Algorithms.Async.Handshake.Answers.{
  HasPlugin, composed, process_greeting-HasPlugin, Answered, response-Answered,
}

-- The runs: the operations that are started end with any code, and reads with any bytes.
module _ (digests : Digests) {C : Type 0} (layer : MessageLayer C) (params : ConnectionParams) where
  pub data Reachable : HandshakeOp → Type 0 where
    begins : Reachable (new_handshake_op params)
    goes_on :
        {op : HandshakeOp} (code : ErrorCode) (buffer : List ℕ) (c c' : C)
        (started : Yielded HandshakeOut) (op' : HandshakeOp)
        → Reachable op
        → handshake_op digests layer op code buffer c ≡ some (started, op', c')
        → Reachable op'

-- Where a response is to be made of it, the calculator has a plugin.
abbrev PluggedAt : HandshakePoint → AuthCalculator → Type 0
PluggedAt at_start calc = Unit
PluggedAt greeting_read calc = Unit
PluggedAt over calc = Unit
PluggedAt _ calc = HasPlugin calc

abbrev Plugged : HandshakeOp → Type 0
Plugged op = PluggedAt op.point op.processor.auth_calc

module _ (digests : Digests) {C : Type 0} (layer : MessageLayer C) where
  -- A step that follows no null pointer and keeps what the points promise.
  abbrev Steps : Resumed digests layer → Type 0
  Steps o =
      (started : Yielded HandshakeOut) × (op : HandshakeOp) × (c : C) × (o ≡ some (started, op, c))
      × Plugged op

  send_response-Steps :
      (op : HandshakeOp) (c : C)
      → HasPlugin op.processor.auth_calc
      → Steps (send_response digests layer op c)
  send_response-Steps op c h =
      let (response, e) = composed op.processor h in
      (
        async_write response,
        record op { point = response_written },
        c,
        rw (send_response, e) refl,
        h,
      )

  ended :
      (op : HandshakeOp) (code : ErrorCode) (info : ErrorInfo) (c : C)
      → Steps (complete_handshake digests layer op code info c)
  ended op code info c = (_, _, _, refl, tt)

  loop_head-Steps :
      (op : HandshakeOp) (result : AuthResult) (c : C)
      → HasPlugin op.processor.auth_calc
      → Steps (loop_head digests layer op result c)
  loop_head-Steps op complete c h = (_, _, _, refl, tt)
  loop_head-Steps op send_more_data c h = (_, _, _, refl, h)
  loop_head-Steps op wait_for_ok c h = (_, _, _, refl, h)
  loop_head-Steps op invalid c h = (_, _, _, refl, h)

  answer_kept-Steps :
      (op : HandshakeOp) (buffer : List ℕ) (result : AuthResult) (c : C)
      → HasPlugin op.processor.auth_calc
      → Steps (answer_kept digests layer op buffer result c)
  answer_kept-Steps op buffer complete c h = (_, _, _, refl, tt)
  answer_kept-Steps op buffer send_more_data c h = (_, _, _, refl, h)
  answer_kept-Steps op buffer wait_for_ok c h = (_, _, _, refl, h)
  answer_kept-Steps op buffer invalid c h = (_, _, _, refl, h)

  answer_processed-Steps :
      (op : HandshakeOp) (o : Option ServerResponse) (c : C)
      → Answered digests o
      → Steps (answer_processed digests layer op o c)
  answer_processed-Steps op o c (r, gives, keeps) = elim (Bool-cases (failed r.code)) [
    | inl e ↦
        rw (gives, e)
          (ended (record op { processor = r.processor; auth_state = r.result }) r.code r.info c)
    | inr e ↦
        let (started, op', c', e', h) =
          answer_kept-Steps (record op { processor = r.processor; auth_state = r.result }) r.buffer
            r.result c (keeps e) in
        (started, op', c', rw (gives, e) e', h)
  ]

  greeting_processed-Steps :
      (op : HandshakeOp) (t : ErrorCode × HandshakeProcessor × ErrorInfo) (c : C)
      → (failed t.0 ≡ false → HasPlugin t.1.auth_calc)
      → Steps (greeting_processed digests layer op t c)
  greeting_processed-Steps op (code, p, info) c h = elim (Bool-cases (failed code)) [
    | inl e ↦ rw e (ended (record op { processor = p }) code info c)
    | inr e ↦ elim (Bool-cases (use_ssl p)) [
      | inl e' ↦ (
        async_write (compose_ssl_request p),
        record op { point = ssl_request_written; processor = p },
        c,
        rw (e, e') refl,
        h e,
      )
      | inr e' ↦
          let (started, op', c', e'', h') =
            send_response-Steps (record op { processor = p }) c (h e) in
          (started, op', c', rw (e, e') e'', h')
    ]
  ]

  resume-Steps :
      (op : HandshakeOp) (buffer : List ℕ) (c : C)
      → Plugged op
      → Steps (resume_handshake digests layer op.point op buffer c)
  resume-Steps op buffer c =
      elim op.point
        as (λ point.
          PluggedAt point op.processor.auth_calc
          → Steps (resume_handshake digests layer point op buffer c)) [
            | at_start ↦ λ h. (async_read, record op { point = greeting_read }, c, refl, tt)
            | greeting_read ↦ λ h.
                greeting_processed-Steps op (process_handshake digests op.processor buffer []) c (
                  unfold process_handshake in
                  process_greeting-HasPlugin digests op.processor (deserialize_handshake buffer []))
            | ssl_request_written ↦
                λ h. (async_ssl_handshake, record op { point = ssl_done }, c, refl, h)
            | ssl_done ↦ λ h. send_response-Steps op c h
            | response_written ↦ λ h. loop_head-Steps op op.auth_state c h
            | answer_read ↦ λ h.
                answer_processed-Steps op
                  (process_handshake_server_response digests op.processor buffer op.auth_state []) c
                  (response-Answered digests op.processor buffer op.auth_state [] h)
            | data_written ↦ λ h. loop_head-Steps op op.auth_state c h
            | over ↦ λ h. (completed (success, none), record op { point = over }, c, refl, tt)
          ]

  step-Steps :
      (op : HandshakeOp) (code : ErrorCode) (buffer : List ℕ) (c : C)
      → Plugged op
      → Steps (handshake_op digests layer op code buffer c)
  unfolding handshake_op
  step-Steps op code buffer c h = elim (Bool-cases (failed code)) [
    | inl e ↦ (completed (code, none), record op { point = over }, c, rw e refl, tt)
    | inr e ↦
        let (started, op', c', e', h') = resume-Steps op buffer c h in
        (started, op', c', rw e e', h')
  ]

  Reachable-Plugged :
      (params : ConnectionParams) {op : HandshakeOp}
      → Reachable digests layer params op
      → Plugged op
  Reachable-Plugged params begins = tt
  Reachable-Plugged params (goes_on {op = op} code buffer c c' started op' r e) =
      let (s, o, d, e', h) = step-Steps op code buffer c (Reachable-Plugged params r) in
      subst Plugged
        (ap (λ (t : Yielded HandshakeOut × HandshakeOp × C). t.1)
          (some_injective (s, o, d) (started, op', c') (sym e' ∙ e)))
        h

  -- In every state that a run of `handshake_op` reaches, whatever the server sends and however the
  -- operations that it starts end, the next call starts an operation or completes: it never follows the
  -- null pointer of a calculator without a plugin.
  pub Reachable-handshake_op :
      (params : ConnectionParams) (op : HandshakeOp) (code : ErrorCode) (buffer : List ℕ) (c : C)
      → Reachable digests layer params op
      → (started : Yielded HandshakeOut) × (op' : HandshakeOp) × (c' : C) × (handshake_op digests
            layer op code buffer c
          ≡ some (started, op', c'))
  Reachable-handshake_op params op code buffer c r =
      let (started, op', c', e, h) = step-Steps op code buffer c (Reachable-Plugged params r) in
      (started, op', c', e)
