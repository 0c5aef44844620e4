-- ===== src/Values/Binary.antt =====
-- detail/protocol/impl/binary_deserialization.ipp: one value of the binary protocol is read.
pub mod Sending
pub mod Sizes
pub mod Times
pub mod Dates
pub mod RoundTrip
use mysql_asio.Values.Binary.Sending.{
  ymd_fields, hms_fields, one_byte, four_bytes, sign_dhms_fields, serialize_binary_ymd,
  serialize_binary_date, serialize_binary_datetime, serialize_binary_time, serialize_binary_value,
  get_binary_value_size, get_protocol_field_type, is_unsigned_value,
}
use mysql_asio.Base.{
  ℕ, ◌+◌, ◌*◌, ◌/◌, ◌%◌, ◌^◌, Bool, true, false, ◌||◌, not, List, [], ◌∷◌, ◌++◌, ltb, leb, ◌==◌,
  if◌then◌else◌, length, take,
}
use mysql_asio.Base.Int.{ℤ, pos, to_pattern}
use mysql_asio.Base.Bytes.{to_le, from_le}
use mysql_asio.Base.Error.{
  Result, ok, err, ◌>>=◌, make_error_code, incomplete_message, protocol_value_error,
}
use mysql_asio.Serialization.{
  FixedInt, int1, int2, int4, int8, FieldType, fixed_int, signed_int, string_lenenc,
  DeserializationContext, enough_size, advance, deserialize, serialize, get_size,
}
use mysql_asio.Metadata.{
  ProtocolFieldType, tiny, short_, long_, float_, double_, timestamp, longlong, int24, date, time,
  datetime, year, null, varchar, FieldMetadata, is_unsigned, protocol_type,
}
use mysql_asio.Values.{
  Variant, nullptr, int64, uint64, string_view, float_bits, double_bits, sys_days, sys_time,
  microseconds, YearMonthDay, TimeOfDay, Calendar, is_out_of_range, per_second, per_minute,
  per_hour, per_day, magnitude, is_negative, with_sign,
}

unfoldable pub deserialize_binary_value_int :
    FixedInt → Bool → DeserializationContext → Result (Variant × DeserializationContext)
deserialize_binary_value_int t true ctx = do
  ((v, _), rest) ← deserialize (fixed_int t ∷ []) ctx
  ok (uint64 v, rest)
deserialize_binary_value_int t false ctx = do
  ((v, _), rest) ← deserialize (signed_int t ∷ []) ctx
  ok (int64 v, rest)

unfoldable pub deserialize_binary_value_string :
    DeserializationContext → Result (Variant × DeserializationContext)
deserialize_binary_value_string ctx = do
  ((v, _), rest) ← deserialize (string_lenenc ∷ []) ctx
  ok (string_view v, rest)

-- `std::isnan(v) || std::isinf(v)`: the exponent's bits are all set.
abbrev pub not_finite_float : ℕ → Bool
not_finite_float w = w / 2 ^ 23 % 256 == 255

abbrev pub not_finite_double : ℕ → Bool
not_finite_double w = w / 2 ^ 52 % 2048 == 2047

unfoldable pub deserialize_binary_value_float :
    ℕ
    → (ℕ → Bool)
    → (ℕ → Variant)
    → DeserializationContext
    → Result (Variant × DeserializationContext)
unfolding enough_size advance
deserialize_binary_value_float size not_finite value ctx =
    if not (enough_size ctx size)
    then err (make_error_code incomplete_message)
    else if not_finite (from_le (take size ctx))
    then err (make_error_code protocol_value_error)
    else ok (value (from_le (take size ctx)), advance ctx size)

unfoldable pub deserialize_binary_ymd :
    DeserializationContext → Result (YearMonthDay × DeserializationContext)
deserialize_binary_ymd ctx = do
  ((y, (m, (d, _))), rest) ← deserialize ymd_fields ctx
  if ltb 9999 y || ltb 12 m || ltb 31 d
      then err (make_error_code protocol_value_error)
      else ok (record { year = pos y; month = m; day = d }, rest)

-- A date that is shorter than its fields is zero, and NULL here; its bytes stay in the context.
unfoldable pub deserialize_binary_value_date :
    Calendar → DeserializationContext → Result (Variant × DeserializationContext)
deserialize_binary_value_date cal ctx = do
  ((len, _), rest) ← deserialize one_byte ctx
  if ltb len 4 then ok (nullptr, rest) else (do
    (ymd, rest2) ← deserialize_binary_ymd rest
    if not (cal.is_ok ymd)
        then ok (nullptr, rest2)
        else if is_out_of_range cal (cal.days_of ymd)
        then err (make_error_code protocol_value_error)
        else ok (sys_days (cal.days_of ymd), rest2))

-- Fields that the length leaves out are zero.
unfoldable pub deserialize_binary_value_datetime :
    Calendar → DeserializationContext → Result (Variant × DeserializationContext)
deserialize_binary_value_datetime cal ctx = do
  ((len, _), rest) ← deserialize one_byte ctx
  (ymd, rest2) ←
      if leb 4 len
      then deserialize_binary_ymd rest
      else ok (record { year = pos 0; month = 0; day = 0 }, rest)
  ((h, (m, (s, _))), rest3) ←
      if leb 7 len then deserialize hms_fields rest2 else ok ((0, (0, (0, tt))), rest2)
  ((us, _), rest4) ← if leb 11 len then deserialize four_bytes rest3 else ok ((0, tt), rest3)
  if ltb 23 h || ltb 59 m || ltb 59 s || ltb 999999 us
      then err (make_error_code protocol_value_error)
      else if not (cal.is_ok ymd)
      then ok (nullptr, rest4)
      else if is_out_of_range cal (cal.days_of ymd)
      then err (make_error_code protocol_value_error)
      else ok (
        sys_time (
            cal.add_micros (cal.days_of ymd) (h * per_hour + m * per_minute + s * per_second + us)),
        rest4,
      )

unfoldable pub deserialize_binary_value_time :
    DeserializationContext → Result (Variant × DeserializationContext)
deserialize_binary_value_time ctx = do
  ((len, _), rest) ← deserialize one_byte ctx
  ((sign, (days, (h, (m, (s, _))))), rest2) ←
      if leb 8 len
      then deserialize sign_dhms_fields rest
      else ok ((0, (0, (0, (0, (0, tt))))), rest)
  ((us, _), rest3) ← if leb 12 len then deserialize four_bytes rest2 else ok ((0, tt), rest2)
  if ltb 34 days || ltb 23 h || ltb 59 m || ltb 59 s || ltb 999999 us
      then err (make_error_code protocol_value_error)
      else ok (
        microseconds (
            with_sign (not (sign == 0))
              (days * per_day + h * per_hour + m * per_minute + s * per_second + us)),
        rest3,
      )

unfoldable pub deserialize_by_type :
    Calendar
    → ProtocolFieldType
    → Bool
    → DeserializationContext
    → Result (Variant × DeserializationContext)
deserialize_by_type cal tiny unsigned ctx = deserialize_binary_value_int int1 unsigned ctx
deserialize_by_type cal short_ unsigned ctx = deserialize_binary_value_int int2 unsigned ctx
deserialize_by_type cal year unsigned ctx = deserialize_binary_value_int int2 unsigned ctx
deserialize_by_type cal int24 unsigned ctx = deserialize_binary_value_int int4 unsigned ctx
deserialize_by_type cal long_ unsigned ctx = deserialize_binary_value_int int4 unsigned ctx
deserialize_by_type cal longlong unsigned ctx = deserialize_binary_value_int int8 unsigned ctx
deserialize_by_type cal float_ unsigned ctx =
    deserialize_binary_value_float 4 not_finite_float float_bits ctx
deserialize_by_type cal double_ unsigned ctx =
    deserialize_binary_value_float 8 not_finite_double double_bits ctx
deserialize_by_type cal timestamp unsigned ctx = deserialize_binary_value_datetime cal ctx
deserialize_by_type cal datetime unsigned ctx = deserialize_binary_value_datetime cal ctx
deserialize_by_type cal date unsigned ctx = deserialize_binary_value_date cal ctx
deserialize_by_type cal time unsigned ctx = deserialize_binary_value_time ctx
deserialize_by_type cal _ unsigned ctx = deserialize_binary_value_string ctx

unfoldable pub deserialize_binary_value :
    Calendar → FieldMetadata → DeserializationContext → Result (Variant × DeserializationContext)
deserialize_binary_value cal meta ctx =
    deserialize_by_type cal (protocol_type meta) (is_unsigned meta) ctx
