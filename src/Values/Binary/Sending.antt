-- ===== src/Values/Binary/Sending.antt =====
-- detail/protocol/impl/binary_serialization.ipp: a value in the binary protocol, its size and its type.
-- The assertions `ymd.ok()` hold for the dates of a `Calendar`.
use mysql_asio.Base.{ℕ, ◌+◌, ◌/◌, ◌%◌, ◌^◌, Bool, true, false, List, [], ◌∷◌, ◌++◌, if◌then◌else◌}
use mysql_asio.Base.Int.{ℤ, to_pattern}
use mysql_asio.Base.Bytes.{to_le}
use mysql_asio.Serialization.{
  int1, int2, int4, int8, FieldType, fixed_int, signed_int, string_lenenc, serialize, get_size,
}
use mysql_asio.Metadata.{
  ProtocolFieldType, float_, double_, longlong, date, time, datetime, null, varchar,
}
use mysql_asio.Values.{
  Variant, nullptr, int64, uint64, string_view, float_bits, double_bits, sys_days, sys_time,
  microseconds, YearMonthDay, Calendar, per_second, per_minute, per_hour, per_day, magnitude,
  is_negative,
}

abbrev pub ymd_fields : List FieldType
ymd_fields = fixed_int int2 ∷ fixed_int int1 ∷ fixed_int int1 ∷ []

abbrev pub hms_fields : List FieldType
hms_fields = fixed_int int1 ∷ fixed_int int1 ∷ fixed_int int1 ∷ []

abbrev pub one_byte : List FieldType
one_byte = fixed_int int1 ∷ []

abbrev pub four_bytes : List FieldType
four_bytes = fixed_int int4 ∷ []

-- The sign, the days, and hours, minutes and seconds of a `time`.
abbrev pub sign_dhms_fields : List FieldType
sign_dhms_fields =
    fixed_int int1 ∷ fixed_int int4 ∷ fixed_int int1 ∷ fixed_int int1 ∷ fixed_int int1 ∷ []

-- The year is an `int` that is cast to `uint16_t`.
unfoldable pub serialize_binary_ymd : YearMonthDay → List ℕ
serialize_binary_ymd ymd =
    serialize ymd_fields (to_pattern (2 ^ 16) ymd.year, (ymd.month, (ymd.day, tt)))

unfoldable pub serialize_binary_date : Calendar → ℤ → List ℕ
serialize_binary_date cal input =
    serialize one_byte (4, tt) ++ serialize_binary_ymd (cal.ymd_of input)

unfoldable pub serialize_binary_datetime : Calendar → ℤ → List ℕ
serialize_binary_datetime cal input =
    let tod = cal.time_of_day input in
    serialize one_byte (11, tt)
    ++ (serialize_binary_ymd (cal.ymd_of (cal.floor_days input))
        ++ (serialize hms_fields (tod.hours, (tod.minutes, (tod.seconds, tt)))
            ++ serialize four_bytes (tod.subseconds, tt)))

-- `duration_cast` and `%` round towards 0, so the absolute value of a part is the part of the
-- absolute value.
unfoldable pub serialize_binary_time : ℤ → List ℕ
serialize_binary_time input =
    let size = magnitude input in
    serialize one_byte (12, tt)
    ++ (serialize sign_dhms_fields (
      if is_negative input then 1 else 0,
      (
        size / per_day,
        (
          size % per_day / per_hour,
          (size % per_hour / per_minute, (size % per_minute / per_second, tt)),
        ),
      ),
    )
        ++ serialize four_bytes (size % per_second, tt))

unfoldable pub serialize_binary_value : Calendar → Variant → List ℕ
serialize_binary_value cal nullptr = []
serialize_binary_value cal (int64 v) = serialize (signed_int int8 ∷ []) (v, tt)
serialize_binary_value cal (uint64 v) = serialize (fixed_int int8 ∷ []) (v, tt)
serialize_binary_value cal (string_view v) = serialize (string_lenenc ∷ []) (v, tt)
serialize_binary_value cal (float_bits w) = to_le 4 w
serialize_binary_value cal (double_bits w) = to_le 8 w
serialize_binary_value cal (sys_days v) = serialize_binary_date cal v
serialize_binary_value cal (sys_time v) = serialize_binary_datetime cal v
serialize_binary_value cal (microseconds v) = serialize_binary_time v

unfoldable pub get_binary_value_size : Variant → ℕ
get_binary_value_size nullptr = 0
get_binary_value_size (int64 v) = 8
get_binary_value_size (uint64 v) = 8
get_binary_value_size (string_view v) = get_size (string_lenenc ∷ []) (v, tt)
get_binary_value_size (float_bits w) = 4
get_binary_value_size (double_bits w) = 8
get_binary_value_size (sys_days v) = 4 + 1
get_binary_value_size (sys_time v) = 11 + 1
get_binary_value_size (microseconds v) = 12 + 1

-- impl/prepared_statement_messages.hpp: the type and the unsigned flag that stand for a value.
unfoldable pub get_protocol_field_type : Variant → ProtocolFieldType
get_protocol_field_type nullptr = null
get_protocol_field_type (int64 v) = longlong
get_protocol_field_type (uint64 v) = longlong
get_protocol_field_type (string_view v) = varchar
get_protocol_field_type (float_bits w) = float_
get_protocol_field_type (double_bits w) = double_
get_protocol_field_type (sys_days v) = date
get_protocol_field_type (sys_time v) = datetime
get_protocol_field_type (microseconds v) = time

unfoldable pub is_unsigned_value : Variant → Bool
is_unsigned_value nullptr = false
is_unsigned_value (int64 v) = false
is_unsigned_value (uint64 v) = true
is_unsigned_value (string_view v) = false
is_unsigned_value (float_bits w) = false
is_unsigned_value (double_bits w) = false
is_unsigned_value (sys_days v) = false
is_unsigned_value (sys_time v) = false
is_unsigned_value (microseconds v) = false
