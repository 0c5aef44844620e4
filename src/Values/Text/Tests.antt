-- ===== src/Values/Text/Tests.antt =====
-- Runs of the text protocol, with functions for the C library's that know one text each.
use mysql_asio.Base.{
  ℕ, ◌≡◌, ◌≤◌, refl, List, [], ◌∷◌, none, some, map, arith, bytes_eq, if◌then◌else◌,
}
use mysql_asio.Base.Int.{negsuc}
use mysql_asio.Base.Error.{ok}
use mysql_asio.Metadata.{FieldMetadata, protocol_type, protocol_field_type, is_unsigned, flag_set}
use mysql_asio.Values.{uint64, microseconds, magnitude}
use mysql_asio.Values.Plain.{plain}
use mysql_asio.Values.Text.{
  TextLibrary, deserialize_text_value, deserialize_text_value_int, deserialize_text_value_time,
  text_value_by_type, deserialize_text_row,
}
use mysql_asio.Values.Text.Laws.{
  TextField, absent, present, text_row, value_of, text_row_back, text_time-range,
}

-- "7" and "01:02:03"
abbrev library : TextLibrary
library = record {
  to_int64 = λ s. none;
  to_uint64 = λ s. if bytes_eq s (55 ∷ []) then some 7 else none;
  to_float = λ s. none;
  to_double = λ s. none;
  scan_ymd = λ s. none;
  scan_time_of_day = λ decimals s. none;
  scan_time = λ decimals s.
      if bytes_eq s (48 ∷ 49 ∷ 58 ∷ 48 ∷ 50 ∷ 58 ∷ 48 ∷ 51 ∷ [])
      then some (record { hours = 1; minutes = 2; seconds = 3; micros = 0 })
      else none;
}

abbrev unsigned_bigint : FieldMetadata
unsigned_bigint = record {
  catalog = [];
  schema = [];
  table = [];
  org_table = [];
  name = [];
  org_name = [];
  character_set = 63;
  column_length = 20;
  type = 8;
  flags = 32;
  decimals = 0;
}

abbrev columns : List FieldMetadata
columns = unsigned_bigint ∷ unsigned_bigint ∷ []

abbrev fields : List TextField
fields = absent ∷ present (uint64 7) (55 ∷ []) ∷ []

seven_read : deserialize_text_value library plain unsigned_bigint (55 ∷ []) ≡ ok (uint64 7)
unfolding deserialize_text_value text_value_by_type deserialize_text_value_int protocol_type
    protocol_field_type is_unsigned flag_set
seven_read = refl

text_row_back_example :
    deserialize_text_row library plain columns (text_row fields) ≡ ok (map value_of fields)
text_row_back_example = text_row_back library plain columns fields (omega arith, seven_read, tt)

-- "-01:02:03"
abbrev negative_time : List ℕ
negative_time = 45 ∷ 48 ∷ 49 ∷ 58 ∷ 48 ∷ 50 ∷ 58 ∷ 48 ∷ 51 ∷ []

negative_time_read :
    deserialize_text_value_time library plain 0 negative_time
    ≡ ok (microseconds (negsuc 3722999999))
unfolding deserialize_text_value_time
negative_time_read = refl

text_time-range_example : magnitude (negsuc 3722999999) ≤ 3020399999999
text_time-range_example =
    text_time-range library plain 0 negative_time (negsuc 3722999999) negative_time_read
