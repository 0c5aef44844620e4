-- ===== src/Algorithms/Async.antt =====
-- The composed asynchronous operations. An operation is a stackless coroutine: `operator()` is called
-- with the code of what it has waited for, goes on at the point where it yielded, and either starts
-- something and yields again, or completes. Its members with that point are a state `S`; a completed
-- read comes with the buffer. The channel's operations end before the operation is called again, and
-- nothing else uses the channel meanwhile, as the library requires.
pub mod Execute
pub mod Handshake
pub mod Close
pub mod Connect
use mysql_asio.Base.{ℕ, zero, suc, List, Option, none, some, ◌≡◌, refl}
use mysql_asio.Base.Error.{ErrorCode, success}
use mysql_asio.Algorithms.{MessageLayer, ◌>>=◌}

-- What is started, or the outcome.
pub data Yielded (Out : Type 0) : Type 0 where
  async_read async_ssl_handshake post : Yielded Out
  async_write : List ℕ → Yielded Out
  completed : Out → Yielded Out

module _ {C S Out : Type 0} (layer : MessageLayer C) where
  abbrev pub perform :
      (S → ErrorCode → List ℕ → C → Option (Out × C))
      → List ℕ
      → Yielded Out × S × C
      → Option (Out × C)
  perform again buffer (async_read, s, c) = do
    ((code, read), c') ← layer.read c
    again s code read c'
  perform again buffer (async_ssl_handshake, s, c) =
      (let (code, c') = layer.ssl_handshake c in again s code buffer c')
  perform again buffer (post, s, c) = again s success buffer c
  perform again buffer (async_write message, s, c) = do
    (code, c') ← layer.write message c
    again s code buffer c'
  perform again buffer (completed out, s, c) = some (out, c)

module _ {C S Out : Type 0} (layer : MessageLayer C)
    (resume : S → ErrorCode → List ℕ → C → Yielded Out × S × C) where
  -- The calls of an operation up to its end, if they are no more than the fuel.
  unfoldable pub run : ℕ → S → ErrorCode → List ℕ → C → Option (Out × C)
  run zero s code buffer c = none
  run (suc fuel) s code buffer c = perform layer (run fuel) buffer (resume s code buffer c)
