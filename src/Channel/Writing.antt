-- ===== src/Channel/Writing.antt =====
-- `channel::write` against the wire format.
use mysql_asio.Base.{
  ℕ, zero, suc, ◌+◌, ◌≤◌, ◌<◌, ◌≡◌, inl, inr, refl, ap, ◌∙◌, Bool, true, false, Bool-cases, List,
  ◌++◌, Option, some, length, length-take, length-drop, length-append, take, drop, take_more,
  take-append-drop, drop-drop, append_assoc, ltb, if◌then◌else◌, arith, tests, subst, lt→ltb,
}
use mysql_asio.Base.Error.{ErrorCode, success}
use mysql_asio.Channel.{
  Stream, Channel, max_packet_size, next_number, compute_size_to_write, write_impl, write_loop,
  write,
}
use mysql_asio.Channel.Header.{
  header_bytes, length-header_bytes, after_header, process_header_write_eq,
}

-- What Boost.Asio documents of a `write` that succeeds: all the bytes went out, in order. `written`
-- is what has gone out so far on a stream where writes succeed.
pub record Accepts {S : Type 0} (io : Stream S) (written : S → List ℕ) : Type 0 where
  pub succeeds : (tls : Bool) (bytes : List ℕ) (s : S) → (io.write tls bytes s).0 ≡ success
  pub appends :
      (tls : Bool) (bytes : List ℕ) (s : S) → written (io.write tls bytes s).1 ≡ written s ++ bytes

-- What the loop of `write` sends: it ends with the message's last bytes, even in a full packet.
pub data Framed : ℕ → List ℕ → List ℕ → Type 0 where
  whole :
      {seq : ℕ} (body : List ℕ)
      → length body ≤ max_packet_size
      → Framed seq body (header_bytes (length body) seq ++ body)
  split :
      {seq : ℕ} (chunk : List ℕ) {payload wire : List ℕ}
      → length chunk ≡ max_packet_size
      → 0 < length payload
      → Framed (next_number seq) payload wire
      → Framed seq (chunk ++ payload) (header_bytes max_packet_size seq ++ (chunk ++ wire))

module _ {S : Type 0} (io : Stream S) (written : S → List ℕ) (law : Accepts io written) where
  -- What a write of `payload` leaves.
  pub record HasWritten (chan : Channel) (payload : List ℕ) (s : S)
      (result : Option (ErrorCode × Channel × S)) : Type 0 where
    pub wire : List ℕ
    pub channel : Channel
    pub stream : S
    pub returns : result ≡ some (success, channel, stream)
    pub framed : Framed chan.sequence_number payload wire
    pub sent : written stream ≡ written s ++ wire
    pub same_layer : channel.ssl_active ≡ chan.ssl_active
    -- The members keep the sizes of their types, a single packet counts one, and what a write does
    -- not touch is as it was.
    pub number_fits : channel.sequence_number < 256
    pub header_size : length channel.header_buffer ≡ 4
    pub numbered :
        length payload ≤ max_packet_size
        → channel.sequence_number ≡ next_number chan.sequence_number
    pub untouched :
        (part : S → List ℕ)
        → ((tls : Bool) (bytes : List ℕ) (t : S) → part (io.write tls bytes t).1 ≡ part t)
        → part stream ≡ part s

  -- The stream after one packet with the channel's number.
  abbrev after_packet : Channel → List ℕ → S → S
  after_packet chan chunk s =
      (io.write chan.ssl_active (header_bytes (length chunk) chan.sequence_number ++ chunk) s).1

  write_step :
      (fuel : ℕ) (buffer : List ℕ) (transferred : ℕ) (chunk : List ℕ) (chan : Channel) (s : S)
      → compute_size_to_write (length buffer) transferred ≡ length chunk
      → take (length chunk) (drop transferred buffer) ≡ chunk
      → write_loop io (suc fuel) buffer transferred chan s ≡ (
          if ltb (transferred + length chunk) (length buffer)
          then write_loop io fuel buffer
              (transferred + length chunk)
              (after_header chan (length chunk))
              (after_packet chan chunk s)
          else some (success, after_header chan (length chunk), after_packet chan chunk s))
  unfolding write_loop write_impl
  write_step fuel buffer transferred chunk chan s size part =
      rw
        (
          size,
          part,
          process_header_write_eq (length chunk) chan,
          law.succeeds chan.ssl_active (header_bytes (length chunk) chan.sequence_number ++ chunk)
              s,
        )
        refl

  -- A full packet in front of what a write leaves.
  extend :
      (chan : Channel) (chunk behind : List ℕ) (s : S) {r result : Option (ErrorCode × Channel × S)}
      → length chunk ≡ max_packet_size
      → 0 < length behind
      → result ≡ r
      → HasWritten (after_header chan (length chunk)) behind (after_packet chan chunk s) r
      → HasWritten chan (chunk ++ behind) s result
  extend chan chunk behind s full more_left e w = record {
    wire = header_bytes max_packet_size chan.sequence_number ++ (chunk ++ w.wire);
    channel = w.channel;
    stream = w.stream;
    returns = e ∙ w.returns;
    framed = split chunk full more_left w.framed;
    sent = w.sent ∙ regroup;
    same_layer = w.same_layer;
    number_fits = w.number_fits;
    header_size = w.header_size;
    numbered = λ h. absurd (omega (arith, length-append chunk behind));
    untouched = λ part h.
        w.untouched part h
        ∙ h chan.ssl_active (header_bytes (length chunk) chan.sequence_number ++ chunk) s;
  }
    where
      head : List ℕ
      head = header_bytes (length chunk) chan.sequence_number

      regroup :
          written (after_packet chan chunk s) ++ w.wire
          ≡ written s ++ (header_bytes max_packet_size chan.sequence_number ++ (chunk ++ w.wire))
      regroup =
          ap (λ l. l ++ w.wire) (law.appends chan.ssl_active (head ++ chunk) s)
          ∙ append_assoc (written s) (head ++ chunk) w.wire
          ∙ ap (λ l. written s ++ l) (append_assoc head chunk w.wire)
          ∙ ap (λ (n : ℕ). written s ++ (header_bytes n chan.sequence_number ++ (chunk ++ w.wire)))
              full

  write_loop-HasWritten :
      (fuel : ℕ) (buffer : List ℕ) (transferred : ℕ) (left : List ℕ) (chan : Channel) (s : S)
      → drop transferred buffer ≡ left
      → transferred + length left ≡ length buffer
      → length left < fuel
      → HasWritten chan left s (write_loop io fuel buffer transferred chan s)
  write_loop-HasWritten zero buffer transferred left chan s e len h = absurd (omega arith)
  write_loop-HasWritten (suc fuel) buffer transferred left chan s e len h =
      elim (Bool-cases (ltb max_packet_size (length left))) [
        | inl long ↦
            let chunk : List ℕ = take max_packet_size left in
            let behind : List ℕ = drop max_packet_size left in
            let full : length chunk ≡ max_packet_size =
              omega (tests, long, length-take max_packet_size left) in
            let size : compute_size_to_write (length buffer) transferred ≡ length chunk =
              unfold compute_size_to_write in omega (tests, long, full) in
            let step = write_step fuel buffer transferred chunk chan s size (rw (full, e)) in
            let goes_on : ltb (transferred + length chunk) (length buffer) ≡ true =
              lt→ltb _ _ (omega (tests, long, full)) in
            let ih =
              write_loop-HasWritten fuel buffer (transferred + length chunk) behind
                (after_header chan (length chunk)) (after_packet chan chunk s)
                (drop-drop transferred (length chunk) buffer ∙ rw (e, full))
                (omega (tests, long, full, length-drop max_packet_size left))
                (omega (tests, long, length-drop max_packet_size left)) in
            subst (λ l. HasWritten chan l s (write_loop io (suc fuel) buffer transferred chan s))
              (take-append-drop max_packet_size left)
              (extend chan chunk behind s full
                (omega (tests, long, length-drop max_packet_size left)) (step ∙ rw goes_on) ih)
        | inr short ↦
            let fits : length left ≤ max_packet_size = ground (arith, short) in
            let size : compute_size_to_write (length buffer) transferred ≡ length left =
              unfold compute_size_to_write in omega arith in
            let step =
              write_step fuel buffer transferred left chan s size
                (rw e (take_more (length left) left (omega arith))) in
            let ends : ltb (transferred + length left) (length buffer) ≡ false = ground arith in
            record {
              wire = header_bytes (length left) chan.sequence_number ++ left;
              channel = after_header chan (length left);
              stream = after_packet chan left s;
              returns = rw (step, ends) refl;
              framed = whole left fits;
              sent =
                  law.appends chan.ssl_active
                    (header_bytes (length left) chan.sequence_number ++ left) s;
              same_layer = refl;
              number_fits = omega arith;
              header_size = length-header_bytes (length left) chan.sequence_number;
              numbered = λ h. refl;
              untouched = λ part h.
                  h chan.ssl_active (header_bytes (length left) chan.sequence_number ++ left) s;
            }
      ]

-- On a stream where writes succeed, `write` succeeds within its fuel, and what it sends is the
-- message in packets numbered from the channel's number on.
pub write-HasWritten :
    {S : Type 0} (io : Stream S) (written : S → List ℕ) (law : Accepts io written)
    (payload : List ℕ) (chan : Channel) (s : S)
    → HasWritten io written law chan payload s (write io payload chan s)
unfolding write
write-HasWritten io written law payload chan s =
    write_loop-HasWritten io written law (suc (length payload)) payload 0 payload chan s refl
      (omega arith) (omega arith)
