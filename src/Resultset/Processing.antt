-- ===== src/Resultset/Processing.antt =====
-- What `process_read_message` makes of a row and of the end.
use mysql_asio.Base.{ℕ, ◌≡◌, refl, sym, ap, ◌∙◌, List, [], ◌∷◌, arith, ≢→==}
use mysql_asio.Base.Bytes.{from_le}
use mysql_asio.Base.Error.{ErrorInfo, ok, success}
use mysql_asio.Serialization.{deserialize_fixed_int, rewind}
use mysql_asio.Serialization.Message.{deserialize_message_type}
use mysql_asio.Messages.Common.{OkPacket}
use mysql_asio.Resultset.{row, eof, RowMessage, process_read_message, Resultset, OwningRow}
use mysql_asio.Resultset.Rows.{IsRow, IsEnd}

pub message_type_of : (b : ℕ) (rest : List ℕ) → deserialize_message_type (b ∷ rest) ≡ ok (b, rest)
unfolding deserialize_message_type deserialize_fixed_int from_le
message_type_of b rest = ground arith

-- The message of a row, and the message at the end.
abbrev pub row_of : Resultset → OwningRow → ErrorInfo → RowMessage
row_of rs r info = record {
  result = row;
  code = success;
  values = r.values;
  ok_packet = rs.ok_packet;
  info = info;
}

abbrev pub end_of : OkPacket → ErrorInfo → RowMessage
end_of packet info = record {
  result = eof;
  code = success;
  values = [];
  ok_packet = packet;
  info = info;
}

pub process_row :
    (rs : Resultset) (r : OwningRow) (info : ErrorInfo)
    → IsRow rs r
    → process_read_message rs.deserializer rs.meta r.buffer rs.ok_packet info ≡ row_of rs r info
unfolding process_read_message rewind
process_row rs r info (first, rest, starts, no_end, no_error, values) =
    let whole : rs.deserializer rs.meta (first ∷ rest) ≡ ok r.values =
      ap (rs.deserializer rs.meta) (sym starts) ∙ values in
    rw
      (
        starts,
        process_read_message,
        message_type_of first rest,
        ≢→== first 0xfe no_end,
        ≢→== first 0xff no_error,
        whole,
      )
      refl

pub process_end :
    (rs : Resultset) (message : List ℕ) (packet : OkPacket) (info : ErrorInfo)
    → IsEnd rs message packet
    → process_read_message rs.deserializer rs.meta message rs.ok_packet info ≡ end_of packet info
unfolding process_read_message
process_end rs message packet info (rest, starts, h) =
    rw (starts, process_read_message, message_type_of 0xfe rest, h) refl
