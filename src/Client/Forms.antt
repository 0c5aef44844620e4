-- ===== src/Client/Forms.antt =====
-- The three forms of connecting and closing agree.
use mysql_asio.Base.{ℕ, ◌≡◌, refl, [], Option, none, some}
use mysql_asio.Base.Error.{ErrorCode, ErrorInfo, conditional_assign, conditional_clear}
use mysql_asio.Auth.Digest.{Digests}
use mysql_asio.Algorithms.{MessageLayer, ◌>>=◌}
use mysql_asio.Algorithms.Connection.{close_connection}
use mysql_asio.Algorithms.Handshake.Params.{ConnectionParams}
use mysql_asio.Algorithms.Handshake.{Handshaken}
use mysql_asio.Algorithms.Async.Connect.{Connected, async_connection-run}
use mysql_asio.Algorithms.Async.Close.{async_close_connection-eq}
use mysql_asio.Client.{Outcome, check_error_code, new_error_block, checked_write}
use mysql_asio.Client.Connection.{
  connection_connect, connection_connect_or_throw, connection_async_connect, connection_close,
  connection_close_or_throw, connection_async_close,
}

module _ {C : Type 0} (layer : MessageLayer C) where
  -- A `close` with codes, seen as the other two forms.
  abbrev pub as_thrown : Option ((ErrorCode × ErrorInfo) × C) → Option (Outcome Unit × C)
  as_thrown closed = do ((code, info), c) ← closed; some (check_error_code code info tt, c)

  abbrev pub as_completed :
      Option ErrorInfo
      → Option ((ErrorCode × ErrorInfo) × C)
      → Option ((ErrorCode × Option ErrorInfo) × C)
  as_completed pointer closed = do
    ((code, info), c) ← closed
    some ((code, conditional_assign pointer info), c)

  abbrev pub Closes : ErrorCode → ErrorInfo → Option ErrorInfo → C → Type 0
  Closes code info pointer c =
      (connection_close_or_throw layer c ≡ as_thrown (connection_close layer code info c))
      × (connection_async_close layer pointer c
          ≡ as_completed pointer (connection_close layer code info c))

  cleared : (pointer : Option ErrorInfo) → conditional_clear pointer ≡ conditional_assign pointer []
  cleared none = refl
  cleared (some info) = refl

  thrown_form :
      (m : Option (ErrorCode × C))
      → checked_write new_error_block m ≡ as_thrown (m >>= λ (code', c'). some ((code', []), c'))
  thrown_form none = refl
  thrown_form (some (code, c)) = refl

  completed_form :
      (pointer : Option ErrorInfo) (m : Option (ErrorCode × C))
      → (m >>= λ (code', c'). some ((code', conditional_clear pointer), c'))
        ≡ as_completed pointer (m >>= λ (code', c'). some ((code', []), c'))
  completed_form pointer none = refl
  completed_form pointer (some (code, c)) = rw (cleared pointer) refl

  close-Closes :
      (code : ErrorCode) (info : ErrorInfo) (pointer : Option ErrorInfo) (c : C)
      → Closes code info pointer c
  unfolding connection_close connection_close_or_throw connection_async_close
  close-Closes code info pointer c = (
    thrown_form (close_connection layer c),
    rw (async_close_connection-eq layer c) (completed_form pointer (close_connection layer c)),
  )

module _ (digests : Digests) {C : Type 0} (layer : MessageLayer C) (connect_to : C → ErrorCode × C)
    (params : ConnectionParams) where
  -- Whatever the caller's code and info held: when the `connect` with codes returns, the one with
  -- exceptions leaves the channel in the same state, and throws this code and message if the code is
  -- an error; and the asynchronous one completes, after finitely many calls of the handshake's
  -- operation, with the same code; it leaves the channel in the same state, or it was an error and has
  -- closed the stream. In every state of the channel, the `close` with exceptions and the asynchronous
  -- one do to the channel what the one with codes does, and throw or complete with its code and info,
  -- or none of them ends.
  pub connection-eq :
      (fuel : ℕ) (code : ErrorCode) (info : ErrorInfo) (pointer : Option ErrorInfo) (c : C)
      (r : Handshaken C)
      → connection_connect digests layer connect_to fuel params code info c ≡ some r
      → (connection_connect_or_throw digests layer connect_to fuel params c
          ≡ some (check_error_code r.code r.info tt, r.channel))
        × ((calls : ℕ) × Connected digests layer connect_to params r
              (connection_async_connect digests layer connect_to calls params pointer c))
        × ((c' : C) → Closes layer code info pointer c')
  unfolding connection_connect connection_connect_or_throw connection_async_connect
  connection-eq fuel code info pointer c r h = (
    rw h refl,
    (async_connection-run digests layer connect_to params fuel (conditional_clear pointer) c r h).0,
    close-Closes layer code info pointer,
  )
