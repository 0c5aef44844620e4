-- ===== src/Channel/RoundTrip.antt =====
-- What one end writes and the other end reads.
use mysql_asio.Base.{
  Bool, append_assoc, refl, ℕ, zero, suc, ◌+◌, ◌%◌, ◌≤◌, ◌<◌, ◌≡◌, sym, ap, ◌∙◌, subst, true,
  Option, some, List, [], ◌++◌, length, length-append, append-nil, ◌==◌, arith,
}
use mysql_asio.Base.Error.{ErrorCode, failed}
use mysql_asio.Channel.{
  overwrite, Stream, Channel, ReadOutcome, max_packet_size, next_number, read_impl, read_round,
  read_loop, read, write,
}
use mysql_asio.Channel.Header.{header_bytes, length-header_bytes}
use mysql_asio.Channel.Reading.{
  Delivers, IsValid, HasRead, read-Packets, read_round_eq, after_body, after_packet,
  after_body_pending, after_packet-IsValid,
}
use mysql_asio.Channel.Writing.{Accepts, Framed, whole, split, write-HasWritten}
use mysql_asio.Channel.Framing.{HasShortEnd, Framed-Packets}

-- A finished write sent the packets that `HasWritten` describes.
written_wire :
    {S : Type 0} (io : Stream S) (written : S → List ℕ) (law : Accepts io written)
    (payload : List ℕ) (chan chan' : Channel) (s s' : S) (code : ErrorCode)
    → written s ≡ []
    → write io payload chan s ≡ some (code, chan', s')
    → (wire : List ℕ) × Framed chan.sequence_number payload wire × (written s' ≡ wire)
written_wire io written law payload chan chan' s s' code e h =
    let w = write-HasWritten io written law payload chan s in
    let same : w.stream ≡ s' = cc (w.returns, h) in
    (w.wire, w.framed, ap written (sym same) ∙ w.sent ∙ ap (λ l. l ++ w.wire) e)

-- A message that does not end in a full packet is read by the other end, if its channel expects the
-- number from which the writer started: the read succeeds with the same message, and takes all that
-- was sent and no more.
pub write-read :
    {S R : Type 0} (io : Stream S) (written : S → List ℕ) (accepts : Accepts io written)
    (peer : Stream R) (pending : R → List ℕ) (delivers : Delivers peer pending)
    (payload rest : List ℕ) (chan chan' peer_chan : Channel) (s s' : S) (r : R) (code : ErrorCode)
    (fuel : ℕ)
    → HasShortEnd payload
    → IsValid peer_chan
    → peer_chan.sequence_number ≡ chan.sequence_number
    → written s ≡ []
    → write io payload chan s ≡ some (code, chan', s')
    → pending r ≡ written s' ++ rest
    → length (written s') ≤ fuel
    → HasRead peer pending delivers peer_chan [] payload rest (read peer fuel peer_chan r)
write-read io written accepts peer pending delivers payload rest chan chan' peer_chan s s' r code
      fuel short v num start done e enough =
    let (wire, f, sent) = written_wire io written accepts payload chan chan' s s' code start done in
    read-Packets peer pending delivers peer_chan payload wire rest r fuel v
      (Framed-Packets (subst (λ (n : ℕ). Framed n payload wire) (sym num) f) short) (e ∙ rw sent)
      (rw sent at enough)

module _ {S : Type 0} (io : Stream S) (pending : S → List ℕ) (law : Delivers io pending) where
  -- The result of a read that has taken in `payload` and all that was to come, and has then asked for
  -- another header: the stream's read of it is what failed.
  abbrev pub WantsHeader : Bool → List ℕ → Option (ReadOutcome S) → Type 0
  WantsHeader tls payload result =
      (out : ReadOutcome S) × (s : S) × (result ≡ some out)
      × (out.buffer ≡ payload)
      × (pending s ≡ [])
      × (out.code ≡ (io.read tls 4 s).0.0)
      × (out.stream ≡ (io.read tls 4 s).1)
      × (failed out.code ≡ true)

  read_loop_starved :
      (fuel : ℕ) (buffer : List ℕ) (transferred : ℕ) (chan : Channel) (s : S)
      → pending s ≡ []
      → WantsHeader chan.ssl_active buffer (read_loop io (suc fuel) buffer transferred chan s)
  unfolding read_loop read_round read_impl
  read_loop_starved fuel buffer transferred chan s e =
      let short = law.starves chan.ssl_active 4 s (rw e (omega arith)) in
      let got = io.read chan.ssl_active 4 s in
      let out : ReadOutcome S = record {
        code = got.0.0;
        buffer = buffer;
        channel = record chan { header_buffer = overwrite 0 got.0.1 chan.header_buffer };
        stream = got.1;
      } in
      (out, s, rw short refl, refl, e, refl, refl, short)

  read_loop-Framed_full :
      {seq : ℕ} {payload wire : List ℕ}
      → Framed seq payload wire
      → 0 < length payload
      → length payload % max_packet_size ≡ 0
      → (fuel : ℕ) (buffer : List ℕ) (chan : Channel) (s : S) → IsValid chan
      → chan.sequence_number ≡ seq
      → pending s ≡ wire
      → length wire < fuel
      → WantsHeader chan.ssl_active
          (buffer ++ payload)
          (read_loop io fuel buffer (length buffer) chan s)
  unfolding read_loop
  read_loop-Framed_full (whole body fits) pos full zero buffer chan s v num e h =
      absurd (omega arith)
  read_loop-Framed_full {seq} (whole body fits) pos full (suc zero) buffer chan s v num e h =
      absurd (
        omega (
          arith,
          length-append (header_bytes (length body) seq) body,
          length-header_bytes (length body) seq,
        ))
  read_loop-Framed_full {seq} (whole body fits) pos full (suc (suc fuel)) buffer chan s v num e h =
      let e' : pending s ≡ header_bytes (length body) chan.sequence_number ++ (body ++ []) =
        e ∙ rw (num, append-nil) in
      let round = read_round_eq io pending law chan v s body [] buffer fits e' in
      let goes_on : (length body == max_packet_size) ≡ true = ground arith in
      rw (round, goes_on)
        (read_loop_starved fuel (buffer ++ body) (length buffer + length body)
          (after_packet io pending law chan (length body))
          (after_body io pending law chan (length body) s)
          (after_body_pending io pending law chan s body [] e'))
  read_loop-Framed_full (split chunk full_chunk some_left f) pos full zero buffer chan s v num e h =
      absurd (omega arith)
  read_loop-Framed_full {seq} (split chunk {payload = l} {wire = w} full_chunk some_left f) pos full
        (suc fuel) buffer chan s v num e h =
      let e' : pending s ≡ header_bytes (length chunk) chan.sequence_number ++ (chunk ++ w) =
        e ∙ rw (num, full_chunk) in
      let round = read_round_eq io pending law chan v s chunk w buffer (omega arith) e' in
      let goes_on : (length chunk == max_packet_size) ≡ true = ground arith in
      rw (round, goes_on, ← length-append buffer chunk, ← append_assoc buffer chunk l)
        (read_loop-Framed_full f some_left (omega (arith, length-append chunk l)) fuel
          (buffer ++ chunk) (after_packet io pending law chan (length chunk))
          (after_body io pending law chan (length chunk) s)
          (after_packet-IsValid io pending law chan (length chunk)) (ap next_number num)
          (after_body_pending io pending law chan s chunk w e')
          (omega (
            arith,
            length-append (header_bytes max_packet_size seq) (chunk ++ w),
            length-append chunk w,
          )))

-- A message of one or more full packets is not read by the other end, if its channel expects the
-- number from which the writer started and nothing more comes: its `read` takes in the whole message
-- and all that was sent, asks for the header of another packet, and fails with the stream's error.
pub write-read_full :
    {S R : Type 0} (io : Stream S) (written : S → List ℕ) (accepts : Accepts io written)
    (peer : Stream R) (pending : R → List ℕ) (delivers : Delivers peer pending) (payload : List ℕ)
    (chan chan' peer_chan : Channel) (s s' : S) (r : R) (code : ErrorCode) (fuel : ℕ)
    → 0 < length payload
    → length payload % max_packet_size ≡ 0
    → IsValid peer_chan
    → peer_chan.sequence_number ≡ chan.sequence_number
    → written s ≡ []
    → write io payload chan s ≡ some (code, chan', s')
    → pending r ≡ written s'
    → length (written s') < fuel
    → WantsHeader peer pending delivers peer_chan.ssl_active payload (read peer fuel peer_chan r)
unfolding read
write-read_full io written accepts peer pending delivers payload chan chan' peer_chan s s' r code
      fuel pos full v num start done e enough =
    let (wire, f, sent) = written_wire io written accepts payload chan chan' s s' code start done in
    read_loop-Framed_full peer pending delivers f pos full fuel [] peer_chan r v num (e ∙ sent)
      (rw sent at enough)
