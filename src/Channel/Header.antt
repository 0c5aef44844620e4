-- ===== src/Channel/Header.antt =====
-- The header of a packet: its four bytes, and what `process_header_read` makes of them.
use mysql_asio.Base.{
  ℕ, ◌+◌, ◌-◌, ◌≤◌, ◌<◌, ◌≡◌, ◌≢◌, refl, sym, ap, ◌∙◌, List, [], ◌∷◌, ◌++◌, length, length-append,
  drop_more, take_more, take-append_exact, replicate, length-replicate, append-nil, ◌==◌, arith,
  if◌then◌else◌,
}
use mysql_asio.Base.Error.{ok, err, make_error_code, sequence_number_mismatch}
use mysql_asio.Serialization.{
  get_int_size, get_size, get_size_field, deserialize, deserialize_field, deserialize_fixed_int,
}
use mysql_asio.Serialization.Length.{length-serialize}
use mysql_asio.Serialization.RoundTrip.{deserialize-serialize}
use mysql_asio.Serialization.Message.{resize}
use mysql_asio.Messages.Common.{
  PacketHeader, packet_header_fields, serialize_packet_header, deserialize_packet_header,
}
use mysql_asio.Channel.{
  Channel, max_packet_size, next_number, process_header_read, process_header_write, overwrite,
}

pub header_bytes : (size seq : ℕ) → List ℕ
header_bytes size seq =
    serialize_packet_header (record { packet_size = size; sequence_number = seq })

pub length-header_bytes : (size seq : ℕ) → length (header_bytes size seq) ≡ 4
unfolding header_bytes serialize_packet_header get_size get_size_field get_int_size
length-header_bytes size seq =
    length-serialize packet_header_fields (size, (seq, tt)) (tt, (tt, tt))

-- The channel behind a header with the number that it had.
abbrev pub after_header : Channel → ℕ → Channel
after_header chan n = record chan {
  sequence_number = next_number chan.sequence_number;
  header_buffer = header_bytes n chan.sequence_number;
}

pub process_header_write_eq :
    (n : ℕ) (chan : Channel) → process_header_write n chan ≡ after_header chan n
unfolding process_header_write header_bytes
process_header_write_eq n chan = refl

-- A header is read back, if its size has three bytes and its number one.
pub header_back :
    (size seq : ℕ) (rest : List ℕ)
    → size ≤ max_packet_size
    → seq < 256
    → deserialize_packet_header (header_bytes size seq ++ rest)
      ≡ ok (record { packet_size = size; sequence_number = seq }, rest)
unfolding header_bytes serialize_packet_header deserialize_packet_header get_int_size
header_back size seq rest h h' = rw (
    deserialize-serialize packet_header_fields (size, (seq, tt)) rest
      (omega arith, (omega arith, tt)) (tt, (tt, tt)))

-- Any four bytes are a header.
pub deserialize_packet_header_total :
    (a b c d : ℕ)
    → (header : PacketHeader) × (deserialize_packet_header (a ∷ b ∷ c ∷ d ∷ []) ≡ ok (header, []))
unfolding deserialize_packet_header deserialize deserialize_field deserialize_fixed_int
deserialize_packet_header_total a b c d = (_, refl)

process_header_read_eq :
    (chan : Channel) (header : PacketHeader) (rest : List ℕ)
    → deserialize_packet_header chan.header_buffer ≡ ok (header, rest)
    → process_header_read chan ≡ (
        if header.sequence_number == chan.sequence_number
        then (
          ok header.packet_size,
          record chan { sequence_number = next_number chan.sequence_number },
        )
        else (err (make_error_code sequence_number_mismatch), chan))
unfolding process_header_read
process_header_read_eq chan header rest h = ground (arith, h)

module _ (chan : Channel) (size seq : ℕ) (fits : size ≤ max_packet_size) (byte : seq < 256)
    (holds : chan.header_buffer ≡ header_bytes size seq) where
  read_header :
      deserialize_packet_header chan.header_buffer
      ≡ ok (record { packet_size = size; sequence_number = seq }, [])
  read_header =
      ap deserialize_packet_header (holds ∙ sym (append-nil _)) ∙ header_back size seq [] fits byte

  -- The header that the channel expects advances its number; the size is the packet's.
  pub process_header_read_match :
      seq ≡ chan.sequence_number
      → process_header_read chan ≡ (ok size, record chan { sequence_number = next_number seq })
  process_header_read_match e = process_header_read_eq chan _ [] read_header ∙ ground arith

  -- Any other number is refused, and the channel stays as it is.
  pub process_header_read_mismatch :
      seq ≢ chan.sequence_number
      → process_header_read chan ≡ (err (make_error_code sequence_number_mismatch), chan)
  process_header_read_mismatch ne = process_header_read_eq chan _ [] read_header ∙ ground arith

-- Writing as many bytes as the buffer has replaces them all.
pub overwrite_all :
    (bytes buffer : List ℕ) → length buffer ≤ length bytes → overwrite 0 bytes buffer ≡ bytes
overwrite_all bytes buffer h =
    rw (drop_more (0 + length bytes) buffer (omega arith), append-nil bytes)

-- Growing a buffer by a packet's size and writing the packet behind the old bytes appends it.
pub overwrite-resize :
    (buffer body : List ℕ) (n : ℕ)
    → length body ≡ n
    → overwrite (length buffer) body (resize (length buffer + n) buffer) ≡ buffer ++ body
unfolding resize
overwrite-resize buffer body n h =
    let zeros : List ℕ = replicate (length buffer + n - length buffer) 0 in
    rw
      (
        take_more (length buffer + n) buffer (omega arith),
        take-append_exact (length buffer) buffer zeros refl,
        drop_more (length buffer + length body) (buffer ++ zeros) (
            omega (
              arith,
              length-append buffer zeros,
              length-replicate {A = ℕ} (length buffer + n - length buffer) 0,
            )),
        append-nil body,
      )
      refl
