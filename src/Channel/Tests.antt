-- ===== src/Channel/Tests.antt =====
-- The channel on a stream in memory, and its theorems at concrete inputs.
use mysql_asio.Base.{
  leb, take, drop, ◌==◌, if◌then◌else◌, Bool-cases, inl, length-drop, tests, ℕ, ◌≡◌, inr, refl,
  List, [], ◌∷◌, ◌++◌, some, length, length-append, length-replicate, replicate, arith, sym,
  append-nil, suc, false,
}
use mysql_asio.Base.Error.{system, ErrorCode, success, make_error_code, sequence_number_mismatch}
use mysql_asio.Channel.{Stream, Channel, ReadOutcome, new_channel, max_packet_size, read, write}
use mysql_asio.Channel.Header.{header_bytes, length-header_bytes}
use mysql_asio.Channel.Packets.{last}
use mysql_asio.Channel.Reading.{IsValid, HasRead, read-Packets, read_mismatch}
use mysql_asio.Channel.Writing.{HasWritten, write-HasWritten}
use mysql_asio.Channel.Ends.{IsBound, read_ends, write_ends}
use mysql_asio.Channel.RoundTrip.{WantsHeader, write-read, write-read_full}
use mysql_asio.Channel.Memory.{
  Memory, memory_io, memory_delivers, memory_accepts, incoming_of, outgoing_of,
}

abbrev coming : List ℕ → Memory
coming bytes = record { incoming = bytes; outgoing = [] }

new_channel-IsValid : IsValid new_channel
new_channel-IsValid = record { number_fits = omega arith; header_size = refl }

read-Packets_example :
    HasRead memory_io incoming_of memory_delivers new_channel []
      (7 ∷ 8 ∷ [])
      (9 ∷ [])
      (read memory_io 100 new_channel (coming ((header_bytes 2 0 ++ (7 ∷ 8 ∷ [])) ++ (9 ∷ []))))
read-Packets_example =
    read-Packets memory_io incoming_of memory_delivers new_channel (7 ∷ 8 ∷ [])
      (header_bytes 2 0 ++ (7 ∷ 8 ∷ [])) (9 ∷ [])
      (coming ((header_bytes 2 0 ++ (7 ∷ 8 ∷ [])) ++ (9 ∷ []))) 100 new_channel-IsValid
      (last (7 ∷ 8 ∷ []) (omega arith)) refl
      (omega (arith, length-append (header_bytes 2 0) (7 ∷ 8 ∷ []), length-header_bytes 2 0))

read_mismatch_example :
    read memory_io 100 new_channel (coming (header_bytes 2 5 ++ (7 ∷ 8 ∷ [])))
    ≡ some (record {
      code = make_error_code sequence_number_mismatch;
      buffer = [];
      channel = record new_channel { header_buffer = header_bytes 2 5 };
      stream = (memory_io.read false 4 (coming (header_bytes 2 5 ++ (7 ∷ 8 ∷ [])))).1;
    })
read_mismatch_example =
    read_mismatch memory_io incoming_of memory_delivers new_channel 2 5 (7 ∷ 8 ∷ [])
      (coming (header_bytes 2 5 ++ (7 ∷ 8 ∷ []))) 99 new_channel-IsValid (omega arith) (omega arith)
      (λ e. omega arith) refl

-- All reads but that of the first header fail.
abbrev failing_io : Stream Memory
failing_io = record memory_io {
  read = λ tls n s.
      if leb n (length s.incoming)
      then (
        (if length s.incoming == 5 then success else system 7, take n s.incoming),
        record s { incoming = drop n s.incoming },
      )
      else ((system 2, s.incoming), s);
}

failing_io-IsBound : IsBound failing_io (λ s. length s.incoming)
failing_io-IsBound = record {
  takes = λ tls n s h. elim (Bool-cases (leb n (length s.incoming))) [
    | inl e ↦ rw e (omega (tests, e, length-drop n s.incoming))
    | inr e ↦ let h' = rw e at h in cc h'
  ];
}

-- Bytes that are no packet.
read_ends_example :
    (r : ReadOutcome Memory) × (read failing_io 6 new_channel (coming (1 ∷ 2 ∷ 3 ∷ 4 ∷ 5 ∷ []))
      ≡ some r)
read_ends_example =
    read_ends failing_io (λ s. length s.incoming) failing_io-IsBound 6 new_channel
      (coming (1 ∷ 2 ∷ 3 ∷ 4 ∷ 5 ∷ [])) (omega arith)

write_ends_example :
    (r : ErrorCode × Channel × Memory) × (write failing_io (1 ∷ 2 ∷ []) new_channel (coming [])
      ≡ some r)
write_ends_example = write_ends failing_io (1 ∷ 2 ∷ []) new_channel (coming [])

-- What a new channel sends for a message.
abbrev sent :
    (payload : List ℕ)
    → HasWritten memory_io outgoing_of memory_accepts new_channel payload
        (coming [])
        (write memory_io payload new_channel (coming []))
sent payload = write-HasWritten memory_io outgoing_of memory_accepts payload new_channel (coming [])

write-HasWritten_example :
    HasWritten memory_io outgoing_of memory_accepts new_channel
      (1 ∷ 2 ∷ 3 ∷ [])
      (coming [])
      (write memory_io (1 ∷ 2 ∷ 3 ∷ []) new_channel (coming []))
write-HasWritten_example =
    write-HasWritten memory_io outgoing_of memory_accepts (1 ∷ 2 ∷ 3 ∷ []) new_channel (coming [])

-- The stream of the other end, when all has arrived.
abbrev arrived : List ℕ → Memory
arrived payload = coming (outgoing_of (sent payload).stream)

write-read_example :
    HasRead memory_io incoming_of memory_delivers new_channel [] (1 ∷ 2 ∷ 3 ∷ []) [] (
      read memory_io
        (length (outgoing_of (sent (1 ∷ 2 ∷ 3 ∷ [])).stream))
        new_channel
        (arrived (1 ∷ 2 ∷ 3 ∷ [])))
write-read_example =
    write-read memory_io outgoing_of memory_accepts memory_io incoming_of memory_delivers
      (1 ∷ 2 ∷ 3 ∷ []) [] new_channel (sent (1 ∷ 2 ∷ 3 ∷ [])).channel new_channel (coming [])
      (sent (1 ∷ 2 ∷ 3 ∷ [])).stream (arrived (1 ∷ 2 ∷ 3 ∷ [])) success
      (length (outgoing_of (sent (1 ∷ 2 ∷ 3 ∷ [])).stream)) (inr (λ e. absurd (omega arith)))
      new_channel-IsValid refl refl (sent (1 ∷ 2 ∷ 3 ∷ [])).returns (sym (append-nil _))
      (omega arith)

-- As many zeros.
zeros : ℕ → List ℕ
zeros n = replicate n 0

length-zeros : (n : ℕ) → length (zeros n) ≡ n
unfolding zeros
length-zeros n = length-replicate n 0

abbrev full_packet : List ℕ
full_packet = zeros max_packet_size

write-read_full_example : WantsHeader memory_io incoming_of memory_delivers false full_packet (
    read memory_io
      (suc (length (outgoing_of (sent full_packet).stream)))
      new_channel
      (arrived full_packet))
write-read_full_example =
    write-read_full memory_io outgoing_of memory_accepts memory_io incoming_of memory_delivers
      full_packet new_channel (sent full_packet).channel new_channel (coming [])
      (sent full_packet).stream (arrived full_packet) success
      (suc (length (outgoing_of (sent full_packet).stream)))
      (omega (arith, length-zeros max_packet_size)) (omega (arith, length-zeros max_packet_size))
      new_channel-IsValid refl refl (sent full_packet).returns refl (omega arith)
