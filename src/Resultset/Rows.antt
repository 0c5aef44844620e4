-- ===== src/Resultset/Rows.antt =====
-- The messages that carry a resultset's rows, independently of the code.
use mysql_asio.Base.{ℕ, ◌+◌, ◌/◌, ◌%◌, ◌≡◌, ◌≢◌, List, [], ◌∷◌, ◌++◌, length}
use mysql_asio.Base.Error.{ok}
use mysql_asio.Channel.{max_packet_size}
use mysql_asio.Channel.Packets.{Packets}
use mysql_asio.Serialization.Message.{deserialize_message}
use mysql_asio.Messages.Common.{OkPacket, deserialize_ok_packet}
use mysql_asio.Resultset.{Resultset, OwningRow, error_packet_header, eof_packet_header}

-- The number behind the packets of a message.
abbrev pub number_after : ℕ → List ℕ → ℕ
number_after seq payload = (seq + (length payload / max_packet_size + 1)) % 256

-- A message that starts as no end and no error does, and of which the row function makes the values.
abbrev pub IsRow : Resultset → OwningRow → Type 0
IsRow rs r =
    (first : ℕ) × (rest : List ℕ) × (r.buffer ≡ first ∷ rest)
    × (first ≢ eof_packet_header)
    × (first ≢ error_packet_header)
    × (rs.deserializer rs.meta r.buffer ≡ ok r.values)

-- Rows in messages one after the other: the wire from one number to another.
pub data RowsSent (rs : Resultset) : ℕ → List OwningRow → List ℕ → ℕ → Type 0 where
  done : {seq : ℕ} → RowsSent rs seq [] [] seq
  next :
      {seq last : ℕ} (r : OwningRow) {rows : List OwningRow} {wire wires : List ℕ}
      → IsRow rs r
      → Packets seq r.buffer wire
      → RowsSent rs (number_after seq r.buffer) rows wires last
      → RowsSent rs seq (r ∷ rows) (wire ++ wires) last

-- The message at the end, with its OK packet.
abbrev pub IsEnd : Resultset → List ℕ → OkPacket → Type 0
IsEnd rs message packet =
    (rest : List ℕ) × (message ≡ eof_packet_header ∷ rest)
    × (deserialize_message (deserialize_ok_packet rs.ok_packet) rest ≡ ok packet)
