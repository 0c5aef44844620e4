-- ===== src/Channel/Ends.antt =====
-- The loops of the channel end, whatever comes over the stream.
use mysql_asio.Base.{
  ℕ, zero, suc, ◌+◌, ◌-◌, ◌≤◌, ◌<◌, ◌≡◌, inl, inr, refl, Bool, true, false, Bool-cases, List, [],
  ◌++◌, some, length, take, drop, ltb, arith, tests,
}
use mysql_asio.Base.Error.{ErrorCode, Result, ok, err, failed}
use mysql_asio.Channel.{
  Stream, Channel, ReadOutcome, compute_size_to_write, overwrite, read_impl, write_impl,
  process_header_read, process_header_write, read_body, read_round, read_loop, read, write_loop,
  write,
}

-- Each packet but the last carries bytes, so the message's length is fuel enough on any stream.
pub write_loop_total :
    {S : Type 0} (io : Stream S) (fuel : ℕ) (buffer : List ℕ) (transferred : ℕ) (chan : Channel)
    (s : S)
    → length buffer - transferred < fuel
    → (r : ErrorCode × Channel × S) × (write_loop io fuel buffer transferred chan s ≡ some r)
unfolding write_loop write_impl process_header_write compute_size_to_write
write_loop_total io zero buffer transferred chan s enough = absurd (omega arith)
write_loop_total io (suc fuel) buffer transferred chan s enough =
    let size = compute_size_to_write (length buffer) transferred in
    let chan' = process_header_write size chan in
    let packet = chan'.header_buffer ++ take size (drop transferred buffer) in
    let got = io.write chan.ssl_active packet s in
    elim (Bool-cases (failed got.0)) [
      | inl e ↦ ((got.0, chan', got.1), rw e refl)
      | inr e ↦ elim (Bool-cases (ltb (transferred + size) (length buffer))) [
        | inl more ↦
            let (r, h) =
              write_loop_total io fuel buffer (transferred + size) chan' got.1
                (omega (tests, more)) in
            (r, rw (e, more) h)
        | inr last ↦ ((got.0, chan', got.1), rw (e, last) refl)
      ]
    ]

-- A bound on the bytes that can still come: a read that does not fail takes its bytes off it. A read
-- may fail at any time, and nothing is said of what is left then.
pub record IsBound {S : Type 0} (io : Stream S) (left : S → ℕ) : Type 0 where
  pub takes :
      (tls : Bool) (n : ℕ) (s : S)
      → failed (io.read tls n s).0.0 ≡ false
      → left (io.read tls n s).1 + n ≤ left s

module _ {S : Type 0} (io : Stream S) (left : S → ℕ) (law : IsBound io left) where
  read_body-takes :
      (buffer : List ℕ) (transferred : ℕ) (header : Result ℕ × Channel) (s : S)
      → (read_body io buffer transferred header s).0 ≡ true
      → left (read_body io buffer transferred header s).1.1.stream ≤ left s
  unfolding read_body read_impl
  read_body-takes buffer transferred (err code, chan) s h = cc h
  read_body-takes buffer transferred (ok size, chan) s h =
      elim (Bool-cases (failed (io.read chan.ssl_active size s).0.0)) [
        | inl bad ↦ let h' = rw bad at h in cc h'
        | inr good ↦ omega (arith, law.takes chan.ssl_active size s good)
      ]

  -- A round that another one follows has taken a header at least.
  read_round-takes :
      (buffer : List ℕ) (transferred : ℕ) (chan : Channel) (s : S)
      → (read_round io buffer transferred chan s).0 ≡ true
      → left (read_round io buffer transferred chan s).1.1.stream < left s
  unfolding read_round read_impl
  read_round-takes buffer transferred chan s h =
      let head = io.read chan.ssl_active 4 s in
      let chan' : Channel = record chan {
        header_buffer = overwrite 0 head.0.1 chan.header_buffer;
      } in
      elim (Bool-cases (failed head.0.0)) [
        | inl bad ↦ let h' = rw bad at h in cc h'
        | inr good ↦ rw good (
            omega (
              arith,
              law.takes chan.ssl_active 4 s good,
              read_body-takes buffer transferred (process_header_read chan') head.1 (rw good at h),
            ))
      ]

  read_loop_total :
      (fuel : ℕ) (buffer : List ℕ) (transferred : ℕ) (chan : Channel) (s : S)
      → left s < fuel
      → (r : ReadOutcome S) × (read_loop io fuel buffer transferred chan s ≡ some r)
  unfolding read_loop
  read_loop_total zero buffer transferred chan s h = absurd (omega (arith, h))
  read_loop_total (suc fuel) buffer transferred chan s h =
      let (follows, (transferred', out)) = read_round io buffer transferred chan s in
      elim (Bool-cases (read_round io buffer transferred chan s).0) [
        | inl e ↦
            let fewer = read_round-takes buffer transferred chan s e in
            let (r, last) =
              read_loop_total fuel out.buffer transferred' out.channel out.stream
                (omega (arith, fewer, h)) in
            (r, rw e last)
        | inr e ↦ (out, rw e refl)
      ]

-- On a stream from which no more than a bounded number of bytes can come, whatever they are, and whose
-- reads may fail at any time: `read` with more fuel than that number ends, with a message or an error,
-- in every state of the channel.
pub read_ends :
    {S : Type 0} (io : Stream S) (left : S → ℕ) (law : IsBound io left) (fuel : ℕ) (chan : Channel)
    (s : S)
    → left s < fuel
    → (r : ReadOutcome S) × (read io fuel chan s ≡ some r)
unfolding read
read_ends io left law fuel chan s h = read_loop_total io left law fuel [] 0 chan s h

-- On every stream, whatever it answers to its writes, `write` ends for every message and in every state
-- of the channel.
pub write_ends :
    {S : Type 0} (io : Stream S) (buffer : List ℕ) (chan : Channel) (s : S)
    → (r : ErrorCode × Channel × S) × (write io buffer chan s ≡ some r)
unfolding write
write_ends io buffer chan s =
    write_loop_total io (suc (length buffer)) buffer 0 chan s (omega arith)
