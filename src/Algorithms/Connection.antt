-- ===== src/Algorithms/Connection.antt =====
-- connect.hpp, quit_connection.hpp and close_connection.hpp: a connection's beginning and end.
pub mod Laws
use mysql_asio.Base.{ℕ, Bool, List, [], ◌∷◌, Option, none, some, if◌then◌else◌}
use mysql_asio.Base.Error.{ErrorCode, ErrorInfo, success, failed}
use mysql_asio.Messages.Common.{quit_packet}
use mysql_asio.Auth.Digest.{Digests}
use mysql_asio.Algorithms.{MessageLayer, ◌>>=◌}
use mysql_asio.Algorithms.Handshake.Params.{ConnectionParams}
use mysql_asio.Algorithms.Handshake.{Handshaken, done, handshake}

-- "Physical connect failed"
abbrev pub physical_connect_failed : ErrorInfo
physical_connect_failed =
    80 ∷ 104 ∷ 121 ∷ 115 ∷ 105 ∷ 99 ∷ 97 ∷ 108 ∷ 32 ∷ 99 ∷ 111 ∷ 110 ∷ 110 ∷ 101 ∷ 99 ∷ 116 ∷ 32
    ∷ 102 ∷ 97 ∷ 105 ∷ 108 ∷ 101 ∷ 100 ∷ []

module _ {C : Type 0} (layer : MessageLayer C) where
  -- `compose_quit` and the write.
  unfoldable pub quit_connection : C → Option (ErrorCode × C)
  quit_connection c =
      layer.write (quit_packet.serialize_ (layer.current_capabilities c) tt)
        (layer.reset_sequence_number c)

  -- The stream is closed whatever became of the message; the first error is the one that is told.
  abbrev pub after_quit : ErrorCode → ErrorCode × C → Option (ErrorCode × C)
  after_quit code (close_code, c) = some (if failed code then code else close_code, c)

  unfoldable pub close_connection : C → Option (ErrorCode × C)
  close_connection c =
      if layer.is_open c
      then (do (code, c') ← quit_connection c; after_quit code (layer.close c'))
      else some (success, c)

  -- The code of this `close` is dropped.
  abbrev pub closed_on_error : Handshaken C → Option (Handshaken C)
  closed_on_error r = if failed r.code then done r.code r.info (layer.close r.channel).1 else some r

  -- The connection to the endpoint is a parameter.
  abbrev pub after_connect :
      Digests → ℕ → ConnectionParams → ErrorInfo → ErrorCode × C → Option (Handshaken C)
  after_connect digests fuel params info (code, c) =
      if failed code
      then done code physical_connect_failed (layer.close c).1
      else (handshake digests layer fuel params info c >>= closed_on_error)

  unfoldable pub connect :
      Digests → (C → ErrorCode × C) → ℕ → ConnectionParams → ErrorInfo → C → Option (Handshaken C)
  connect digests connect_stream fuel params info c =
      after_connect digests fuel params info (connect_stream c)
