-- ===== src/Channel.antt =====
-- include/boost/mysql/detail/protocol/channel.hpp and impl/channel.hpp: the message layer. A message
-- goes over the stream as packets of at most `max_packet_size` bytes, each behind a header with
-- its size and a sequence number.
--
-- The stream is not part of the library: Boost.Asio's `read`, `write`, `handshake`, `shutdown` and
-- `close` on it are the fields of a `Stream`, over a type of stream states. The loops take fuel, and
-- `none` says that it ran out.
pub mod Header
pub mod Packets
pub mod Reading
pub mod Writing
pub mod Framing
pub mod RoundTrip
pub mod Memory
pub mod Ends
pub mod Async
pub mod Tests
use mysql_asio.Base.{
  ℕ, zero, suc, ◌+◌, ◌-◌, ◌%◌, ◌^◌, min, ◌≡◌, Bool, true, false, List, [], ◌∷◌, ◌++◌, Option, none,
  some, ltb, ◌==◌, not, ◌&&◌, if◌then◌else◌, length, take, drop,
}
use mysql_asio.Base.Error.{
  ErrorCode, Result, ok, err, success, failed, make_error_code, sequence_number_mismatch,
}
use mysql_asio.Capabilities.{Capabilities}
use mysql_asio.Serialization.Message.{resize}
use mysql_asio.Messages.Common.{PacketHeader, serialize_packet_header, deserialize_packet_header}

-- constants.hpp: `MAX_PACKET_SIZE`
abbrev pub max_packet_size : ℕ
max_packet_size = 0xffffff

-- The operations on a stream in state `S`; the flag is set if they go through the TLS layer. A read
-- asks for a number of bytes, and answers a code and the bytes that it got.
pub record Stream (S : Type 0) : Type 0 where
  pub read : Bool → ℕ → S → (ErrorCode × List ℕ) × S
  pub write : Bool → List ℕ → S → ErrorCode × S
  pub ssl_handshake : S → ErrorCode × S
  pub shutdown : S → ErrorCode × S
  pub close : S → ErrorCode × S
  pub is_open : S → Bool

-- The members of a `channel`, but for the reference to the stream. `ssl_active` says whether the
-- optional `ssl_block_` has a value.
pub record Channel : Type 0 where
  pub ssl_active : Bool
  pub sequence_number : ℕ
  pub header_buffer : List ℕ
  pub shared_buff : List ℕ
  pub current_caps : Capabilities

-- A new channel.
abbrev pub new_channel : Channel
new_channel = record {
  ssl_active = false;
  sequence_number = 0;
  header_buffer = 0 ∷ 0 ∷ 0 ∷ 0 ∷ [];
  shared_buff = [];
  current_caps = 0;
}

-- `uint8_t` arithmetic wraps.
abbrev pub next_number : ℕ → ℕ
next_number n = (n + 1) % 256

unfoldable pub process_sequence_number : ℕ → Channel → Bool × Channel
process_sequence_number got chan =
    if got == chan.sequence_number
    then (true, record chan { sequence_number = next_number chan.sequence_number })
    else (false, chan)

-- The old number, and the channel with the next one.
unfoldable pub next_sequence_number : Channel → ℕ × Channel
next_sequence_number chan =
    (chan.sequence_number, record chan { sequence_number = next_number chan.sequence_number })

unfoldable pub reset_sequence_number : ℕ → Channel → Channel
reset_sequence_number value chan = record chan { sequence_number = value }

unfoldable pub set_current_capabilities : Capabilities → Channel → Channel
set_current_capabilities value chan = record chan { current_caps = value }

-- The header is read from a buffer of four bytes, so `deserialize` cannot fail
-- (`Header.deserialize_packet_header_total`), and the assertion holds; the first case is never met.
unfoldable pub process_header_read : Channel → Result ℕ × Channel
unfolding process_sequence_number
process_header_read chan = elim (deserialize_packet_header chan.header_buffer) [
  | err e ↦ (err e, chan)
  | ok (header, rest) ↦
      let (matches, chan') = process_sequence_number header.sequence_number chan in
      if matches
      then (ok header.packet_size, chan')
      else (err (make_error_code sequence_number_mismatch), chan')
]

unfoldable pub process_header_write : ℕ → Channel → Channel
unfolding next_sequence_number
process_header_write size_to_write chan =
    let (number, chan') = next_sequence_number chan in
    record chan' {
      header_buffer =
          serialize_packet_header
            (record { packet_size = size_to_write; sequence_number = number });
    }

unfoldable pub compute_size_to_write : ℕ → ℕ → ℕ
compute_size_to_write buffer_size transferred_size =
    min max_packet_size (buffer_size - transferred_size) % 2 ^ 32

-- A write of `bytes` into `buffer` from `offset` on.
abbrev pub overwrite : ℕ → List ℕ → List ℕ → List ℕ
overwrite offset bytes buffer = take offset buffer ++ (bytes ++ drop (offset + length bytes) buffer)

-- What `read` leaves: the code, the caller's buffer, the channel and the stream.
pub record ReadOutcome (S : Type 0) : Type 0 where
  pub code : ErrorCode
  pub buffer : List ℕ
  pub channel : Channel
  pub stream : S

module _ {S : Type 0} (io : Stream S) where
  pub read_impl : ℕ → Channel → S → (ErrorCode × List ℕ) × S
  read_impl size chan = io.read chan.ssl_active size

  pub write_impl : List ℕ → Channel → S → ErrorCode × S
  write_impl bytes chan = io.write chan.ssl_active bytes

  -- The second half of a round of the loop of `read`: the outcome of the header, and the body. The
  -- flag says whether another packet follows, and the number is the new `transferred_size`.
  unfoldable pub read_body : List ℕ → ℕ → Result ℕ × Channel → S → Bool × (ℕ × ReadOutcome S)
  unfolding read_impl
  read_body buffer transferred (err code, chan) s =
      (false, (transferred, record { code = code; buffer = buffer; channel = chan; stream = s }))
  read_body buffer transferred (ok size, chan) s =
      let sized = resize (length buffer + size) buffer in
      let ((code, body), s') = read_impl size chan s in
      (
        not (failed code) && size == max_packet_size,
        (
          transferred + size,
          record {
            code = code;
            buffer = overwrite transferred body sized;
            channel = chan;
            stream = s';
          },
        ),
      )

  unfoldable pub read_round : List ℕ → ℕ → Channel → S → Bool × (ℕ × ReadOutcome S)
  unfolding read_impl read_body
  read_round buffer transferred chan s =
      let ((code, header), s') = read_impl 4 chan s in
      let chan' = record chan { header_buffer = overwrite 0 header chan.header_buffer } in
      if failed code
      then (
        false,
        (transferred, record { code = code; buffer = buffer; channel = chan'; stream = s' }),
      )
      else read_body buffer transferred (process_header_read chan') s'

  pub read_loop : ℕ → List ℕ → ℕ → Channel → S → Option (ReadOutcome S)
  read_loop zero buffer transferred chan s = none
  read_loop (suc fuel) buffer transferred chan s =
      let (more, (transferred', out)) = read_round buffer transferred chan s in
      let rest = read_loop fuel out.buffer transferred' out.channel out.stream in
      if more then rest else some out

  -- `buffer.clear()` comes first, so what the caller's buffer held does not matter.
  pub read : ℕ → Channel → S → Option (ReadOutcome S)
  unfolding read_loop
  read fuel chan s = read_loop fuel [] 0 chan s

  pub write_loop : ℕ → List ℕ → ℕ → Channel → S → Option (ErrorCode × Channel × S)
  unfolding write_impl
  write_loop zero buffer transferred chan s = none
  write_loop (suc fuel) buffer transferred chan s =
      let size = compute_size_to_write (length buffer) transferred in
      let chan' = process_header_write size chan in
      let (code, s') =
        write_impl (chan'.header_buffer ++ take size (drop transferred buffer)) chan' s in
      let rest = write_loop fuel buffer (transferred + size) chan' s' in
      if failed code
      then some (code, chan', s')
      else if ltb (transferred + size) (length buffer)
      then rest
      else some (code, chan', s')

  -- Each round of a longer message moves `max_packet_size` bytes.
  pub write : List ℕ → Channel → S → Option (ErrorCode × Channel × S)
  unfolding write_loop
  write buffer chan s = write_loop (suc (length buffer)) buffer 0 chan s

  -- `create_ssl_block` makes the channel use TLS even if the handshake then fails.
  unfoldable pub ssl_handshake : Channel → S → ErrorCode × Channel × S
  ssl_handshake chan s =
      let (code, s') = io.ssl_handshake s in (code, record chan { ssl_active = true }, s')

  -- The error of `shutdown` is overwritten.
  unfoldable pub close : S → ErrorCode × S
  close s = let (shutdown_code, s') = io.shutdown s in io.close s'
