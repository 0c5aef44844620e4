-- ===== src/Algorithms/Async/Close.antt =====
-- `close_op` of impl/close_connection.hpp. It runs `async_quit_connection`, which is one write.
use mysql_asio.Base.{ℕ, ◌≡◌, refl, not, List, [], Option, Bool-cases, inl, inr, if◌then◌else◌}
use mysql_asio.Base.Error.{ErrorCode, success, failed}
use mysql_asio.Messages.Common.{quit_packet}
use mysql_asio.Algorithms.{MessageLayer}
use mysql_asio.Algorithms.Connection.{quit_connection, close_connection}
use mysql_asio.Algorithms.Async.{Yielded, async_write, post, completed, run}

pub data ClosePoint : Type 0 where
  at_start posted quit_written : ClosePoint

module _ {C : Type 0} (layer : MessageLayer C) where
  -- The code is that of the operation that has ended: the error of the quit message is kept.
  abbrev pub resume_close : ClosePoint → ErrorCode → C → Yielded ErrorCode × ClosePoint × C
  resume_close at_start code c = if not (layer.is_open c) then (post, posted, c) else (
    async_write (quit_packet.serialize_ (layer.current_capabilities c) tt),
    quit_written,
    layer.reset_sequence_number c,
  )
  resume_close posted code c = (completed success, posted, c)
  resume_close quit_written code c =
      (let (close_err, c') = layer.close c in
        (completed (if failed code then code else close_err), quit_written, c'))

  unfoldable pub close_op : ClosePoint → ErrorCode → List ℕ → C → Yielded ErrorCode × ClosePoint × C
  close_op point code buffer c = resume_close point code c

  unfoldable pub async_close_connection : C → Option (ErrorCode × C)
  async_close_connection c = run layer close_op 2 at_start success [] c

  -- In every state of the channel, the asynchronous closing of a connection ends, after two calls, with
  -- the same code and the same channel as the synchronous one, or with neither if the write does not
  -- end.
  pub async_close_connection-eq : (c : C) → async_close_connection c ≡ close_connection layer c
  unfolding async_close_connection run close_op close_connection quit_connection
  async_close_connection-eq c = elim (Bool-cases (layer.is_open c)) [
    | inl e ↦ rw e refl
    | inr e ↦ rw e refl
  ]
