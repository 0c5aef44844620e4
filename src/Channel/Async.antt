-- ===== src/Channel/Async.antt =====
-- `read_op` and `write_op` of include/boost/mysql/detail/protocol/impl/channel.hpp: the asynchronous
-- `read` and `write` of a channel.
--
-- Both are stackless coroutines: `operator()` is called with the code and the number of bytes of the
-- stream's operation that has ended, goes on at the point where it yielded, and either starts another
-- one or completes. The stream's operations put what they read into the buffers before the call, and
-- nothing else uses the channel meanwhile, as the library requires.
pub mod Laws
pub mod Tests
use mysql_asio.Base.{
  ℕ, zero, suc, ◌+◌, ◌-◌, Bool, List, [], ◌++◌, Option, none, some, ltb, ◌==◌, if◌then◌else◌,
  length, take, drop,
}
use mysql_asio.Base.Error.{ErrorCode, Result, ok, err, success, failed}
use mysql_asio.Serialization.Message.{resize}
use mysql_asio.Channel.{
  Stream, Channel, ReadOutcome, max_packet_size, overwrite, read_impl, write_impl,
  process_header_read, process_header_write, compute_size_to_write,
}

-- Where the operation waits.
pub data ReadPoint : Type 0 where
  at_start header_awaited body_awaited : ReadPoint

pub record ReadOp : Type 0 where
  pub point : ReadPoint
  pub buffer : List ℕ
  pub total_transferred_size : ℕ

-- What it starts: a read into `header_buffer_`, a read of some bytes into its buffer from an offset
-- on, or the completion.
pub data ReadStarted : Type 0 where
  read_header : ReadStarted
  read_body : (offset size : ℕ) → ReadStarted
  complete : ErrorCode → ReadStarted

abbrev pub await_header : ReadOp → Channel → ReadStarted × ReadOp × Channel
await_header op chan = (read_header, record op { point = header_awaited }, chan)

-- The body's size is known, or the header was refused.
abbrev pub await_body : ReadOp → Result ℕ × Channel → ReadStarted × ReadOp × Channel
await_body op (err code, chan) = (complete code, op, chan)
await_body op (ok size, chan) = (
  read_body op.total_transferred_size size,
  record op { point = body_awaited; buffer = resize (length op.buffer + size) op.buffer },
  chan,
)

abbrev pub resume_read : ReadPoint → ReadOp → ℕ → Channel → ReadStarted × ReadOp × Channel
resume_read at_start op bytes_transferred chan = await_header op chan
resume_read header_awaited op bytes_transferred chan = await_body op (process_header_read chan)
resume_read body_awaited op bytes_transferred chan =
    let op' = record op {
      total_transferred_size = op.total_transferred_size + bytes_transferred;
    } in
    if bytes_transferred == max_packet_size
    then await_header op' chan
    else (complete success, op', chan)

unfoldable pub read_op : ReadOp → ErrorCode → ℕ → Channel → ReadStarted × ReadOp × Channel
read_op op code bytes_transferred chan =
    if failed code
    then (complete code, op, chan)
    else resume_read op.point op bytes_transferred chan

pub data WritePoint : Type 0 where
  write_start packet_awaited : WritePoint

pub record WriteOp : Type 0 where
  pub point : WritePoint
  pub buffer : List ℕ
  pub total_transferred_size : ℕ

-- It starts the write of a header and the bytes behind it, or completes.
pub data WriteStarted : Type 0 where
  write_packet : List ℕ → WriteStarted
  complete : ErrorCode → WriteStarted

abbrev pub start_packet : WriteOp → Channel → WriteStarted × WriteOp × Channel
start_packet op chan =
    let size_to_write = compute_size_to_write (length op.buffer) op.total_transferred_size in
    let chan' = process_header_write size_to_write chan in
    (
      write_packet
          (chan'.header_buffer ++ take size_to_write (drop op.total_transferred_size op.buffer)),
      record op { point = packet_awaited },
      chan',
    )

-- The header's four bytes are no bytes of the message.
abbrev pub resume_write : WritePoint → WriteOp → ℕ → Channel → WriteStarted × WriteOp × Channel
resume_write write_start op bytes_transferred chan = start_packet op chan
resume_write packet_awaited op bytes_transferred chan =
    let op' = record op {
      total_transferred_size = op.total_transferred_size + (bytes_transferred - 4);
    } in
    if ltb op'.total_transferred_size (length op.buffer)
    then start_packet op' chan
    else (WriteStarted.complete success, op', chan)

unfoldable pub write_op : WriteOp → ErrorCode → ℕ → Channel → WriteStarted × WriteOp × Channel
write_op op code bytes_transferred chan =
    if failed code
    then (WriteStarted.complete code, op, chan)
    else resume_write op.point op bytes_transferred chan

module _ {S : Type 0} (io : Stream S) where
  abbrev pub perform_read :
      (ReadOp → ErrorCode → ℕ → Channel → S → Option (ReadOutcome S))
      → ReadStarted × ReadOp × Channel
      → S
      → Option (ReadOutcome S)
  perform_read again (read_header, op, chan) s =
      let ((code, bytes), s') = read_impl io 4 chan s in
      again op code (length bytes)
        (record chan { header_buffer = overwrite 0 bytes chan.header_buffer }) s'
  perform_read again (read_body offset size, op, chan) s =
      let ((code, bytes), s') = read_impl io size chan s in
      again (record op { buffer = overwrite offset bytes op.buffer }) code (length bytes) chan s'
  perform_read again (complete code, op, chan) s =
      some (record { code = code; buffer = op.buffer; channel = chan; stream = s })

  -- The calls of `read_op` up to its end, if they are no more than the fuel.
  unfoldable pub run_read : ℕ → ReadOp → ErrorCode → ℕ → Channel → S → Option (ReadOutcome S)
  run_read zero op code bytes_transferred chan s = none
  run_read (suc fuel) op code bytes_transferred chan s =
      perform_read (run_read fuel) (read_op op code bytes_transferred chan) s

  -- `buffer.clear()` comes first.
  unfoldable pub async_read : ℕ → Channel → S → Option (ReadOutcome S)
  async_read fuel chan s =
      run_read fuel (record { point = at_start; buffer = []; total_transferred_size = 0 }) success 0
        chan s

  -- A write that succeeds has transferred all of the packet; the number of a failed one is not used.
  abbrev pub perform_write :
      (WriteOp → ErrorCode → ℕ → Channel → S → Option (ErrorCode × Channel × S))
      → WriteStarted × WriteOp × Channel
      → S
      → Option (ErrorCode × Channel × S)
  perform_write again (write_packet packet, op, chan) s =
      let (code, s') = write_impl io packet chan s in again op code (length packet) chan s'
  perform_write again (WriteStarted.complete code, op, chan) s = some (code, chan, s)

  unfoldable pub run_write :
      ℕ → WriteOp → ErrorCode → ℕ → Channel → S → Option (ErrorCode × Channel × S)
  run_write zero op code bytes_transferred chan s = none
  run_write (suc fuel) op code bytes_transferred chan s =
      perform_write (run_write fuel) (write_op op code bytes_transferred chan) s

  -- One call starts each packet, and one completes.
  unfoldable pub async_write : List ℕ → Channel → S → Option (ErrorCode × Channel × S)
  async_write buffer chan s =
      run_write (suc (suc (length buffer)))
        (record { point = write_start; buffer = buffer; total_transferred_size = 0 }) success 0 chan
        s
