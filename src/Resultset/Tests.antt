-- ===== src/Resultset/Tests.antt =====
-- A fetch of two rows and the end.
use mysql_asio.Base.{ℕ, ◌≡◌, refl, ◌++◌, List, [], ◌∷◌, length, length-append, false, true, arith}
use mysql_asio.Base.Error.{ok}
use mysql_asio.Base.Bytes.{from_le}
use mysql_asio.Base.Bytes.{from_le}
use mysql_asio.Messages.Common.{OkPacket, empty_ok_packet}
use mysql_asio.Values.{string_view}
use mysql_asio.Channel.{new_channel}
use mysql_asio.Channel.Header.{header_bytes, length-header_bytes}
use mysql_asio.Channel.Packets.{last}
use mysql_asio.Channel.Reading.{IsValid}
use mysql_asio.Channel.Memory.{Memory, memory_io, memory_delivers, incoming_of}
use mysql_asio.Resultset.{Resultset, OwningRow, complete, fetch_many}
use mysql_asio.Resultset.Rows.{IsRow, RowsSent, next, done}
use mysql_asio.Resultset.Fetch.{HasFetched, fetch_many_some}

-- The row function makes one string of the message.
abbrev fresh : Resultset
fresh = record {
  deserializer = λ meta ctx. ok (string_view ctx ∷ []);
  meta = [];
  ok_packet = empty_ok_packet;
  eof_received = false;
  info_held = true;
}

abbrev row_with : ℕ → OwningRow
row_with b = record { values = string_view (1 ∷ b ∷ []) ∷ []; buffer = 1 ∷ b ∷ [] }

row_with-IsRow : (b : ℕ) → IsRow fresh (row_with b)
row_with-IsRow b = (1, b ∷ [], refl, omega arith, omega arith, refl)

abbrev wire_of : ℕ → ℕ → List ℕ
wire_of seq b = header_bytes 2 seq ++ (1 ∷ b ∷ [])

abbrev two_rows : List ℕ
two_rows = wire_of 0 5 ++ (wire_of 1 6 ++ [])

two_rows-RowsSent : RowsSent fresh 0 (row_with 5 ∷ row_with 6 ∷ []) two_rows 2
two_rows-RowsSent =
    next (row_with 5) (row_with-IsRow 5) (last (1 ∷ 5 ∷ []) (omega arith))
      (next (row_with 6) (row_with-IsRow 6) (last (1 ∷ 6 ∷ []) (omega arith)) done)

open_ : complete fresh ≡ false
unfolding complete
open_ = refl

-- An OK packet behind the header 0xfe.
abbrev end_message : List ℕ
end_message = 0xfe ∷ 0 ∷ 0 ∷ 2 ∷ 0 ∷ 1 ∷ 0 ∷ []

abbrev end_packet : OkPacket
end_packet = record {
  affected_rows = 0;
  last_insert_id = 0;
  status_flags = 2;
  warnings = 1;
  info = [];
}

abbrev end_wire : List ℕ
end_wire = header_bytes 7 2 ++ end_message

abbrev stream : Memory
stream = record { incoming = two_rows ++ (end_wire ++ (9 ∷ [])); outgoing = [] }

new_channel-IsValid : IsValid new_channel
new_channel-IsValid = record { number_fits = omega arith; header_size = refl }

length-two_rows : length two_rows ≡ 12
length-two_rows = omega (
  arith,
  length-append (wire_of 0 5) (wire_of 1 6 ++ []),
  length-append (wire_of 1 6) [],
  length-append (header_bytes 2 0) (1 ∷ 5 ∷ []),
  length-append (header_bytes 2 1) (1 ∷ 6 ∷ []),
  length-header_bytes 2 0,
  length-header_bytes 2 1,
)

fetch_many_some_example :
    HasFetched memory_io incoming_of memory_delivers 100
      (row_with 5 ∷ row_with 6 ∷ [])
      (end_wire ++ (9 ∷ []))
      false
      true
      empty_ok_packet
      2
      (fetch_many memory_io 100 2 fresh new_channel stream)
fetch_many_some_example =
    fetch_many_some memory_io incoming_of memory_delivers 100 fresh (row_with 5 ∷ row_with 6 ∷ [])
      new_channel stream two_rows (end_wire ++ (9 ∷ [])) 2 open_ two_rows-RowsSent
      new_channel-IsValid refl (omega (arith, length-two_rows))
