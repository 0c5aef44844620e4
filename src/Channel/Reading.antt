-- ===== src/Channel/Reading.antt =====
-- `channel::read` against the wire format.
use mysql_asio.Base.{
  ℕ, zero, suc, ◌+◌, ◌/◌, ◌%◌, ◌≤◌, ◌<◌, ◌≡◌, ◌≢◌, refl, ap, ◌∙◌, Bool, true, false, List, [], ◌++◌,
  Option, some, length, length-append, take, drop, take-append_exact, drop-append_exact,
  append_assoc, ◌==◌, arith,
}
use mysql_asio.Base.Error.{success, failed, make_error_code, sequence_number_mismatch}
use mysql_asio.Channel.{
  Stream, Channel, ReadOutcome, max_packet_size, next_number, overwrite, read_impl, read_round,
  read_loop, read,
}
use mysql_asio.Channel.Header.{
  header_bytes, length-header_bytes, process_header_read_match, process_header_read_mismatch,
  overwrite_all, overwrite-resize,
}
use mysql_asio.Channel.Packets.{Packets, last, more}

-- What Boost.Asio documents of `read` on a stream from which the bytes `pending` can still come: it
-- fills the buffer if there are enough of them, takes no others, and fails if there are not.
pub record Delivers {S : Type 0} (io : Stream S) (pending : S → List ℕ) : Type 0 where
  pub succeeds :
      (tls : Bool) (n : ℕ) (s : S)
      → n ≤ length (pending s)
      → (io.read tls n s).0 ≡ (success, take n (pending s))
  pub consumes :
      (tls : Bool) (n : ℕ) (s : S)
      → n ≤ length (pending s)
      → pending (io.read tls n s).1 ≡ drop n (pending s)
  pub starves :
      (tls : Bool) (n : ℕ) (s : S) → length (pending s) < n → failed (io.read tls n s).0.0 ≡ true

-- The channel's members have the sizes of their C++ types.
pub record IsValid (chan : Channel) : Type 0 where
  pub number_fits : chan.sequence_number < 256
  pub header_size : length chan.header_buffer ≡ 4

module _ {S : Type 0} (io : Stream S) (pending : S → List ℕ) (law : Delivers io pending) where
  -- A read of the first of two parts of what is pending.
  read_part :
      (tls : Bool) (s : S) (part rest : List ℕ) (n : ℕ)
      → pending s ≡ part ++ rest
      → length part ≡ n
      → ((io.read tls n s).0 ≡ (success, part)) × (pending (io.read tls n s).1 ≡ rest)
  read_part tls s part rest n e h =
      let enough : n ≤ length (pending s) = rw e (omega (arith, length-append part rest)) in
      (
        law.succeeds tls n s enough ∙ rw (e, take-append_exact n part rest h),
        law.consumes tls n s enough ∙ rw (e, drop-append_exact n part rest h),
      )

  -- The streams after the header and after the body.
  abbrev pub after_header : Channel → S → S
  after_header chan s = (io.read chan.ssl_active 4 s).1

  abbrev pub after_body : Channel → ℕ → S → S
  after_body chan n s = (io.read chan.ssl_active n (after_header chan s)).1

  -- The channel after a packet with the number that it expects.
  abbrev pub after_packet : Channel → ℕ → Channel
  after_packet chan n = record chan {
    sequence_number = next_number chan.sequence_number;
    header_buffer = header_bytes n chan.sequence_number;
  }

  module _ (chan : Channel) (valid : IsValid chan) (s : S) (chunk rest buffer : List ℕ)
      (fits : length chunk ≤ max_packet_size) where
    pub read_round_eq :
        pending s ≡ header_bytes (length chunk) chan.sequence_number ++ (chunk ++ rest)
        → read_round io buffer (length buffer) chan s ≡ (
          length chunk == max_packet_size,
          (
            length buffer + length chunk,
            record {
              code = success;
              buffer = buffer ++ chunk;
              channel = after_packet chan (length chunk);
              stream = after_body chan (length chunk) s;
            },
          ),
        )
    unfolding read_round read_impl
    read_round_eq e =
        let head =
          read_part chan.ssl_active s (header_bytes (length chunk) chan.sequence_number)
            (chunk ++ rest) 4 e (length-header_bytes _ _) in
        let body =
          read_part chan.ssl_active (after_header chan s) chunk rest (length chunk) head.1 refl in
        let header : List ℕ = header_bytes (length chunk) chan.sequence_number in
        let filled : overwrite 0 header chan.header_buffer ≡ header =
          overwrite_all header chan.header_buffer (
            omega (
              arith,
              valid.header_size,
              length-header_bytes (length chunk) chan.sequence_number,
            )) in
        let accepted =
          process_header_read_match (record chan { header_buffer = header }) (length chunk)
            chan.sequence_number fits valid.number_fits refl refl in
        rw (head.0, filled, accepted, body.0, overwrite-resize buffer chunk (length chunk) refl)
    -- The packet with another number ends the read.

  module _ (chan : Channel) (valid : IsValid chan) (s : S) (size seq : ℕ) (rest buffer : List ℕ)
      (fits : size ≤ max_packet_size) (byte : seq < 256) where
    read_round_mismatch :
        pending s ≡ header_bytes size seq ++ rest
        → seq ≢ chan.sequence_number
        → read_round io buffer (length buffer) chan s ≡ (
          false,
          (
            length buffer,
            record {
              code = make_error_code sequence_number_mismatch;
              buffer = buffer;
              channel = record chan { header_buffer = header_bytes size seq };
              stream = after_header chan s;
            },
          ),
        )
    unfolding read_round read_impl
    read_round_mismatch e ne =
        let head =
          read_part chan.ssl_active s (header_bytes size seq) rest 4 e (length-header_bytes _ _) in
        let filled : overwrite 0 (header_bytes size seq) chan.header_buffer
            ≡ header_bytes size seq =
          overwrite_all (header_bytes size seq) chan.header_buffer
            (omega (arith, valid.header_size, length-header_bytes size seq)) in
        let refused =
          process_header_read_mismatch (record chan { header_buffer = header_bytes size seq }) size
            seq fits byte refl ne in
        rw (head.0, filled, refused)

  -- What a read that has taken in `payload` behind `buffer` leaves, when `rest` is still to come.
  pub record HasRead (chan : Channel) (buffer payload rest : List ℕ)
      (result : Option (ReadOutcome S)) : Type 0 where
    pub out : ReadOutcome S
    pub returns : result ≡ some out
    pub succeeds : out.code ≡ success
    pub appended : out.buffer ≡ buffer ++ payload
    pub still_pending : pending out.stream ≡ rest
    pub same_layer : out.channel.ssl_active ≡ chan.ssl_active
    pub valid : IsValid out.channel
    pub numbered :
        out.channel.sequence_number
        ≡ (chan.sequence_number + (length payload / max_packet_size + 1)) % 256

  pub after_body_pending :
      (chan : Channel) (s : S) (chunk rest : List ℕ)
      → pending s ≡ header_bytes (length chunk) chan.sequence_number ++ (chunk ++ rest)
      → pending (after_body chan (length chunk) s) ≡ rest
  after_body_pending chan s chunk rest e =
      let head =
        read_part chan.ssl_active s (header_bytes (length chunk) chan.sequence_number)
          (chunk ++ rest) 4 e (length-header_bytes _ _) in
      (read_part chan.ssl_active (after_header chan s) chunk rest (length chunk) head.1 refl).1

  pub after_packet-IsValid : (chan : Channel) (n : ℕ) → IsValid (after_packet chan n)
  after_packet-IsValid chan n = record {
    number_fits = omega arith;
    header_size = length-header_bytes n chan.sequence_number;
  }

  -- The loop takes in all the packets of a message.
  read_loop-Packets :
      {seq : ℕ} {payload wire : List ℕ}
      → Packets seq payload wire
      → (fuel : ℕ) (buffer : List ℕ) (chan : Channel) (s : S) (rest : List ℕ) → IsValid chan
      → chan.sequence_number ≡ seq
      → pending s ≡ wire ++ rest
      → length wire ≤ fuel
      → HasRead chan buffer payload rest (read_loop io fuel buffer (length buffer) chan s)
  unfolding read_loop
  read_loop-Packets {seq} (last body small) zero buffer chan s rest v num e h = absurd (
      omega (
        arith,
        length-append (header_bytes (length body) seq) body,
        length-header_bytes (length body) seq,
      ))
  read_loop-Packets {seq} (last body small) (suc fuel) buffer chan s rest v num e h =
      let e' : pending s ≡ header_bytes (length body) chan.sequence_number ++ (body ++ rest) =
        e ∙ rw num (append_assoc (header_bytes (length body) seq) body rest) in
      let round = read_round_eq chan v s body rest buffer (omega arith) e' in
      let ends : (length body == max_packet_size) ≡ false = ground arith in
      record {
        out = record {
          code = success;
          buffer = buffer ++ body;
          channel = after_packet chan (length body);
          stream = after_body chan (length body) s;
        };
        returns = rw (round, ends) refl;
        succeeds = refl;
        appended = refl;
        still_pending = after_body_pending chan s body rest e';
        same_layer = refl;
        valid = after_packet-IsValid chan (length body);
        numbered = omega arith;
      }
  read_loop-Packets {seq} (more chunk {wire = w} full p) zero buffer chan s rest v num e h =
      absurd (
        omega (
          arith,
          length-append (header_bytes max_packet_size seq) (chunk ++ w),
          length-header_bytes max_packet_size seq,
        ))
  read_loop-Packets {seq} (more chunk {payload = l} {wire = w} full p) (suc fuel) buffer chan s rest
        v num e h =
      let e' : pending s
          ≡ header_bytes (length chunk) chan.sequence_number ++ (chunk ++ (w ++ rest)) =
        e
        ∙ rw (
          num,
          full,
          append_assoc (header_bytes max_packet_size seq) (chunk ++ w) rest,
          append_assoc chunk w rest,
        ) in
      let round = read_round_eq chan v s chunk (w ++ rest) buffer (omega arith) e' in
      let goes_on : (length chunk == max_packet_size) ≡ true = ground arith in
      let ih =
        read_loop-Packets p fuel (buffer ++ chunk) (after_packet chan (length chunk))
          (after_body chan (length chunk) s) rest (after_packet-IsValid chan (length chunk))
          (ap next_number num) (after_body_pending chan s chunk (w ++ rest) e')
          (omega (
            arith,
            length-append (header_bytes max_packet_size seq) (chunk ++ w),
            length-append chunk w,
          )) in
      record {
        out = ih.out;
        returns = rw (round, goes_on, ← length-append buffer chunk) ih.returns;
        succeeds = ih.succeeds;
        appended = ih.appended ∙ append_assoc buffer chunk l;
        still_pending = ih.still_pending;
        same_layer = ih.same_layer;
        valid = ih.valid;
        numbered = omega (arith, ih.numbered, length-append chunk l);
      }

-- On a stream that delivers the packets of a message, numbered as the channel expects, `read`
-- succeeds, the buffer holds the message, the bytes behind the packets are still to come, and the
-- channel stays valid on the same layer. Any fuel that is not below the number of the packets'
-- bytes is enough.
pub read-Packets :
    {S : Type 0} (io : Stream S) (pending : S → List ℕ) (law : Delivers io pending) (chan : Channel)
    (payload wire rest : List ℕ) (s : S) (fuel : ℕ)
    → IsValid chan
    → Packets chan.sequence_number payload wire
    → pending s ≡ wire ++ rest
    → length wire ≤ fuel
    → HasRead io pending law chan [] payload rest (read io fuel chan s)
unfolding read
read-Packets io pending law chan payload wire rest s fuel v p e h =
    read_loop-Packets io pending law p fuel [] chan s rest v refl e h

-- When the next header has another number than the channel expects, `read` stops with
-- `sequence_number_mismatch` after that header: the message is empty, the expected number stays.
pub read_mismatch :
    {S : Type 0} (io : Stream S) (pending : S → List ℕ)
    → Delivers io pending
    → (chan : Channel) (size seq : ℕ) (rest : List ℕ) (s : S) (fuel : ℕ) → IsValid chan
    → size ≤ max_packet_size
    → seq < 256
    → seq ≢ chan.sequence_number
    → pending s ≡ header_bytes size seq ++ rest
    → read io (suc fuel) chan s
      ≡ some (record {
        code = make_error_code sequence_number_mismatch;
        buffer = [];
        channel = record chan { header_buffer = header_bytes size seq };
        stream = (io.read chan.ssl_active 4 s).1;
      })
unfolding read read_loop
read_mismatch io pending law chan size seq rest s fuel v fits byte ne e =
    rw (read_round_mismatch io pending law chan v s size seq rest [] fits byte e ne)
