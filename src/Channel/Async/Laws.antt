-- ===== src/Channel/Async/Laws.antt =====
-- The asynchronous operations against the synchronous ones.
use mysql_asio.Base.{
  ℕ, zero, suc, ◌+◌, ◌-◌, ◌≡◌, inl, inr, refl, ◌∙◌, Bool, false, Bool-cases, List, [], ◌++◌, Option,
  some, length, length-take, length-drop, length-append, take, drop, ltb, ◌==◌, if◌then◌else◌,
  arith,
}
use mysql_asio.Base.Error.{ErrorCode, Result, ok, err, success, failed}
use mysql_asio.Channel.{
  Stream, Channel, ReadOutcome, max_packet_size, compute_size_to_write, overwrite, read_impl,
  write_impl, process_header_read, process_header_write, read_round, read_loop, read, write_loop,
  write,
}
use mysql_asio.Channel
use mysql_asio.Channel.Header.{length-header_bytes, process_header_write_eq, header_bytes}
use mysql_asio.Channel.Ends.{write_loop_total}
use mysql_asio.Channel.Async.{
  ReadPoint, header_awaited, body_awaited, ReadOp, await_header, await_body, read_op, perform_read,
  run_read, async_read, WritePoint, packet_awaited, WriteOp, start_packet, write_op, perform_write,
  run_write, async_write,
}

-- What Boost.Asio documents of its composed operations: those that end without an error have the
-- code `error_code()`, and a read has filled its buffer.
pub record CompletesFully {S : Type 0} (io : Stream S) : Type 0 where
  pub read_success :
      (tls : Bool) (size : ℕ) (s : S)
      → failed (io.read tls size s).0.0 ≡ false
      → (io.read tls size s).0.0 ≡ success
  pub read_fills :
      (tls : Bool) (size : ℕ) (s : S)
      → failed (io.read tls size s).0.0 ≡ false
      → length (io.read tls size s).0.1 ≡ size
  pub write_success :
      (tls : Bool) (bytes : List ℕ) (s : S)
      → failed (io.write tls bytes s).0 ≡ false
      → (io.write tls bytes s).0 ≡ success

-- Two calls for each packet.
abbrev pub twice : ℕ → ℕ
twice zero = zero
twice (suc n) = suc (suc (twice n))

module _ {S : Type 0} (io : Stream S) (law : CompletesFully io) where
  -- A round of the loop, in front of the others.
  abbrev after_round : ℕ → Bool × (ℕ × ReadOutcome S) → Option (ReadOutcome S)
  after_round fuel (more, (transferred, out)) =
      if more then read_loop io fuel out.buffer transferred out.channel out.stream else some out

  abbrev reading : ReadPoint → List ℕ → ℕ → ReadOp
  reading point buffer transferred = record {
    point = point;
    buffer = buffer;
    total_transferred_size = transferred;
  }

  abbrev Goes : ℕ → Type 0
  Goes fuel =
      (buffer : List ℕ) (transferred : ℕ) (chan : Channel) (s : S)
      → perform_read io (run_read io (twice fuel))
          (await_header (reading body_awaited buffer transferred) chan) s
        ≡ read_loop io fuel buffer transferred chan s

  -- The body goes into the buffer, and its size tells whether another packet follows.
  body_read :
      (fuel : ℕ) (buffer : List ℕ) (transferred : ℕ) (header : Result ℕ × Channel) (s : S)
      → Goes fuel
      → perform_read io
          (run_read io (suc (twice fuel)))
          (await_body (reading header_awaited buffer transferred) header)
          s
        ≡ after_round fuel (Channel.read_body io buffer transferred header s)
  unfolding Channel.read_body run_read read_op read_impl
  body_read fuel buffer transferred (err code, chan) s goes = refl
  body_read fuel buffer transferred (ok size, chan) s goes =
      let got = io.read chan.ssl_active size s in
      elim (Bool-cases (failed got.0.0)) [
        | inl e ↦ rw e refl
        | inr e ↦
            let full = law.read_fills chan.ssl_active size s e in
            let clean = law.read_success chan.ssl_active size s e in
            elim (Bool-cases (size == max_packet_size)) [
              | inl more ↦ rw (e, full, more) (goes _ (transferred + size) chan got.1)
              | inr last ↦ rw (e, full, last, clean) refl
            ]
      ]

  header_read : (fuel : ℕ) → Goes fuel → Goes (suc fuel)
  unfolding read_loop read_round run_read read_op read_impl
  header_read fuel goes buffer transferred chan s =
      let got = io.read chan.ssl_active 4 s in
      let chan' = record chan { header_buffer = overwrite 0 got.0.1 chan.header_buffer } in
      elim (Bool-cases (failed got.0.0)) [
        | inl e ↦ rw e refl
        | inr e ↦ rw e (body_read fuel buffer transferred (process_header_read chan') got.1 goes)
      ]

  read_loop-run : (fuel : ℕ) → Goes fuel
  unfolding read_loop run_read
  read_loop-run zero buffer transferred chan s = refl
  read_loop-run (suc fuel) buffer transferred chan s =
      header_read fuel (read_loop-run fuel) buffer transferred chan s

  async_read-eq-read :
      (fuel : ℕ) (chan : Channel) (s : S)
      → async_read io (suc (twice fuel)) chan s ≡ read io fuel chan s
  unfolding async_read read run_read read_op
  async_read-eq-read fuel chan s = read_loop-run fuel [] 0 chan s

  abbrev writing : WritePoint → List ℕ → ℕ → WriteOp
  writing point buffer transferred = record {
    point = point;
    buffer = buffer;
    total_transferred_size = transferred;
  }

  -- A packet's bytes behind its header are as many as its size says.
  packet_size :
      (buffer : List ℕ) (transferred : ℕ) (chan : Channel)
      → let size = compute_size_to_write (length buffer) transferred in
        length
            ((process_header_write size chan).header_buffer ++ take size (drop transferred buffer))
          - 4
        ≡ size
  unfolding compute_size_to_write
  packet_size buffer transferred chan =
      let size = compute_size_to_write (length buffer) transferred in
      let packet_header : List ℕ = header_bytes size chan.sequence_number in
      let chunk : List ℕ = take size (drop transferred buffer) in
      rw (process_header_write_eq size chan) (
        omega (
          arith,
          length-append packet_header chunk,
          length-header_bytes size chan.sequence_number,
          length-take size (drop transferred buffer),
          length-drop transferred buffer,
        ))

  write_loop-run :
      (fuel : ℕ) (buffer : List ℕ) (transferred : ℕ) (chan : Channel) (s : S)
      → perform_write io
          (run_write io fuel)
          (start_packet (writing packet_awaited buffer transferred) chan)
          s
        ≡ write_loop io fuel buffer transferred chan s
  unfolding write_loop run_write write_op write_impl process_header_write compute_size_to_write
  write_loop-run zero buffer transferred chan s = refl
  write_loop-run (suc fuel) buffer transferred chan s =
      let size = compute_size_to_write (length buffer) transferred in
      let chan' = process_header_write size chan in
      let packet = chan'.header_buffer ++ take size (drop transferred buffer) in
      let got = io.write chan.ssl_active packet s in
      let sized = packet_size buffer transferred chan in
      elim (Bool-cases (failed got.0)) [
        | inl e ↦ rw e refl
        | inr e ↦
            let clean = law.write_success chan.ssl_active packet s e in
            elim (Bool-cases (ltb (transferred + size) (length buffer))) [
              | inl more ↦
                  rw (e, sized, more) (write_loop-run fuel buffer (transferred + size) chan' got.1)
              | inr last ↦ rw (e, sized, last, clean) refl
            ]
      ]

-- On a stream whose operations keep Boost.Asio's promises, whatever they read and however they fail:
-- with two calls for each packet that `read` may take and one more, `async_read` ends with the same
-- code, buffer, channel and stream as `read`, or with neither; and `async_write` ends for each
-- message, as `write` does.
pub async-eq :
    {S : Type 0} (io : Stream S) (law : CompletesFully io) (chan : Channel) (s : S)
    → ((fuel : ℕ) → async_read io (suc (twice fuel)) chan s ≡ read io fuel chan s)
      × ((buffer : List ℕ)
          → (r : ErrorCode × Channel × S) × (async_write io buffer chan s ≡ some r)
            × (write io buffer chan s ≡ some r))
unfolding async_write write run_write write_op
async-eq io law chan s = (
  λ fuel. async_read-eq-read io law fuel chan s,
  λ buffer.
      let (r, h) = write_loop_total io (suc (length buffer)) buffer 0 chan s (omega arith) in
      (r, write_loop-run io law (suc (length buffer)) buffer 0 chan s ∙ h, h),
)
