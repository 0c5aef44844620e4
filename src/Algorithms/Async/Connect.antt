-- ===== src/Algorithms/Async/Connect.antt =====
-- `connect_op` of impl/connect.hpp. It runs the stream's `async_connect`, a parameter, and then the
-- operation of the handshake.
use mysql_asio.Base.{
  ℕ, zero, suc, ◌≡◌, refl, subst, ◌⊎◌, true, [], Option, none, some, Bool-cases, inl, inr,
  if◌then◌else◌,
}
use mysql_asio.Base.Error.{ErrorCode, ErrorInfo, success, failed, conditional_assign}
use mysql_asio.Auth.Digest.{Digests}
use mysql_asio.Algorithms.{MessageLayer, ◌>>=◌, >>=-eq-some, some_injective}
use mysql_asio.Algorithms.Handshake.Params.{ConnectionParams}
use mysql_asio.Algorithms.Handshake.{Handshaken, handshake}
use mysql_asio.Algorithms.Connection.{
  physical_connect_failed, closed_on_error, connect, close_connection,
}
use mysql_asio.Algorithms.Async.Handshake.{async_handshake}
use mysql_asio.Algorithms.Async.Handshake.Loop.{Ends}
use mysql_asio.Algorithms.Async.Handshake.Run.{handshake-run}
use mysql_asio.Algorithms.Async.Close.{async_close_connection, async_close_connection-eq}

pub data ConnectPoint : Type 0 where
  at_start stream_connected handshake_ended : ConnectPoint

pub data ConnectStarted : Type 0 where
  connect_stream start_handshake : ConnectStarted
  connected : ErrorCode → ConnectStarted

-- The caller's error info, if there is one, is assigned by the sub-operation.
abbrev pub told_by : Option ErrorInfo → Option ErrorInfo → Option ErrorInfo
told_by info none = info
told_by info (some message) = conditional_assign info message

module _ {C : Type 0} (layer : MessageLayer C) where
  abbrev pub Connecting : Type 0
  Connecting = ConnectStarted × ConnectPoint × Option ErrorInfo × C

  -- There is no check of the code in front of the points; the code of `close` is dropped.
  unfoldable pub connect_op : ConnectPoint → ErrorCode → Option ErrorInfo → C → Connecting
  connect_op at_start code info c = (connect_stream, stream_connected, info, c)
  connect_op stream_connected code info c =
      if failed code
      then (
        connected code,
        stream_connected,
        conditional_assign info physical_connect_failed,
        (layer.close c).1,
      )
      else (start_handshake, handshake_ended, info, c)
  connect_op handshake_ended code info c =
      if failed code
      then (connected code, handshake_ended, info, (layer.close c).1)
      else (connected code, handshake_ended, info, c)

module _ (digests : Digests) {C : Type 0} (layer : MessageLayer C) (connect_to : C → ErrorCode × C)
    (params : ConnectionParams) (calls : ℕ) where
  abbrev pub perform_connect :
      (ConnectPoint → ErrorCode → Option ErrorInfo → C → Option (ErrorCode × Option ErrorInfo × C))
      → Connecting layer
      → Option (ErrorCode × Option ErrorInfo × C)
  perform_connect again (connect_stream, point, info, c) =
      (let (code, c') = connect_to c in again point code info c')
  perform_connect again (start_handshake, point, info, c) = do
    ((code, message), c') ← async_handshake digests layer calls params c
    again point code (told_by info message) c'
  perform_connect again (connected code, point, info, c) = some (code, info, c)

  unfoldable pub run_connect :
      ℕ
      → ConnectPoint
      → ErrorCode
      → Option ErrorInfo
      → C
      → Option (ErrorCode × Option ErrorInfo × C)
  run_connect zero point code info c = none
  run_connect (suc fuel) point code info c =
      perform_connect (run_connect fuel) (connect_op layer point code info c)

  -- Three calls, and those of the handshake's operation.
  unfoldable pub async_connect : Option ErrorInfo → C → Option (ErrorCode × Option ErrorInfo × C)
  async_connect info c = run_connect 3 at_start success info c

module _ (digests : Digests) {C : Type 0} (layer : MessageLayer C) (connect_to : C → ErrorCode × C)
    (params : ConnectionParams) where
  -- The same code, the same channel after a success, and a closed stream after an error.
  abbrev pub Connected : Handshaken C → Option (ErrorCode × Option ErrorInfo × C) → Type 0
  Connected r o =
      (info : Option ErrorInfo) × (c : C) × (o ≡ some (r.code, info, c))
      × ((c ≡ r.channel) ⊎ ((last : C) × (failed r.code ≡ true) × (c ≡ (layer.close last).1)))

  handshaken-Connected :
      (h r : Handshaken C) (info : Option ErrorInfo) (c : C) (calls : ℕ)
      → closed_on_error layer h ≡ some r
      → Ends digests layer h (async_handshake digests layer calls params c)
      → Connected r (
          perform_connect digests layer connect_to params calls
            (run_connect digests layer connect_to params calls 1)
            (start_handshake, handshake_ended, info, c))
  unfolding run_connect connect_op
  handshaken-Connected h r info c calls e (message, c', ended, same) =
      elim (Bool-cases (failed h.code)) [
        | inl bad ↦
            subst
              (λ (s : Handshaken C). Connected s (
                perform_connect digests layer connect_to params calls
                  (run_connect digests layer connect_to params calls 1)
                  (start_handshake, handshake_ended, info, c)))
              (some_injective _ r (rw bad at e))
              (told_by info message, (layer.close c').1, rw (ended, bad) refl, inr (c', bad, refl))
        | inr good ↦
            subst
              (λ (s : Handshaken C). Connected s (
                perform_connect digests layer connect_to params calls
                  (run_connect digests layer connect_to params calls 1)
                  (start_handshake, handshake_ended, info, c)))
              (some_injective h r (rw good at e))
              (
                told_by info message,
                c',
                rw (ended, good) refl,
                inl (elim same [ inl bad ↦ cc | inr e' ↦ e' ]),
              )
      ]

  -- When `connect` returns, its asynchronous operation completes, after finitely many calls of the
  -- handshake's operation, with the same code; after a success it leaves the channel in the same state,
  -- and after an error it has closed the stream.
  connect-run :
      (fuel : ℕ) (info : Option ErrorInfo) (c : C) (r : Handshaken C)
      → connect layer digests connect_to fuel params [] c ≡ some r
      → (calls : ℕ) × Connected r (async_connect digests layer connect_to params calls info c)
  unfolding connect async_connect run_connect connect_op
  connect-run fuel info c r h =
      let to = connect_to c in
      elim (Bool-cases (failed to.0)) [
        | inl bad ↦ (
          0,
          subst
              (λ (s : Handshaken C).
                Connected s (async_connect digests layer connect_to params 0 info c))
              (some_injective _ r (rw bad at h))
              (
                conditional_assign info physical_connect_failed,
                (layer.close to.1).1,
                rw bad refl,
                inr (to.1, bad, refl),
              ),
        )
        | inr good ↦
            let (s, shaken, h') =
              >>=-eq-some (handshake digests layer fuel params [] to.1) _ (rw good at h) in
            let (calls, ends) = handshake-run digests layer fuel params to.1 s shaken in
            (calls, rw good (handshaken-Connected s r info to.1 calls h' ends))
      ]

  -- When `connect` returns, its asynchronous operation completes, after finitely many calls of the
  -- handshake's operation, with the same code; it leaves the channel in the same state, or it was an
  -- error and has closed the stream. In every state of the channel, the asynchronous closing of a
  -- connection ends, after two calls, with the same code and the same channel as the synchronous one,
  -- or with neither if the write does not end.
  pub async_connection-run :
      (fuel : ℕ) (info : Option ErrorInfo) (c : C) (r : Handshaken C)
      → connect layer digests connect_to fuel params [] c ≡ some r
      → ((calls : ℕ) × Connected r (async_connect digests layer connect_to params calls info c))
        × ((c' : C) → async_close_connection layer c' ≡ close_connection layer c')
  async_connection-run fuel info c r h =
      (connect-run fuel info c r h, λ c'. async_close_connection-eq layer c')
