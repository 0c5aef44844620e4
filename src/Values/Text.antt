-- ===== src/Values/Text.antt =====
-- detail/protocol/impl/text_deserialization.ipp: values and rows in the text protocol.
--
-- Boost's `try_lexical_convert` and the C library's `sscanf` are parameters, one for each type and each
-- format that the code uses.
pub mod Laws
pub mod Tests
use mysql_asio.Base.{
  ℕ, zero, suc, ◌+◌, ◌-◌, ◌*◌, ◌%◌, ◌^◌, min, Bool, true, false, ◌||◌, not, List, [], ◌∷◌, Option,
  none, some, ltb, ◌==◌, if◌then◌else◌, length, take, drop,
}
use mysql_asio.Base.Int.{ℤ, pos}
use mysql_asio.Base.Error.{
  Result, ok, err, ◌>>=◌, make_error_code, protocol_value_error, extra_bytes,
}
use mysql_asio.Serialization.{
  DeserializationContext, enough_size, advance, empty, deserialize_string_lenenc,
}
use mysql_asio.Metadata.{
  FieldMetadata, protocol_type, is_unsigned, ProtocolFieldType, tiny, short_, int24, long_, year,
  longlong, float_, double_, timestamp, datetime, date, time,
}
use mysql_asio.Values.{
  Variant, nullptr, int64, uint64, string_view, float_bits, double_bits, sys_days, sys_time,
  microseconds, YearMonthDay, Calendar, is_out_of_range, per_second, per_minute, per_hour,
  with_sign,
}
use mysql_asio.Values.Binary.{not_finite_float, not_finite_double}

-- Hours, minutes, seconds and the digits behind the point.
pub record ClockTime : Type 0 where
  pub hours : ℕ
  pub minutes : ℕ
  pub seconds : ℕ
  pub micros : ℕ

-- `none` where the conversion fails, and where `sscanf` does not give as many items as are asked for.
pub record TextLibrary : Type 0 where
  pub to_int64 : List ℕ → Option ℤ
  pub to_uint64 : List ℕ → Option ℕ
  pub to_float : List ℕ → Option ℕ
  pub to_double : List ℕ → Option ℕ
  -- "%4u-%2u-%2u%c"
  pub scan_ymd : List ℕ → Option (ℕ × ℕ × ℕ)
  -- "%2u:%2u:%2u%c" and "%2u:%2u:%2u.%6u%c", the latter with the flag set
  pub scan_time_of_day : Bool → List ℕ → Option ClockTime
  -- "%3u:%2u:%2u%c" and "%3u:%2u:%2u.%6u%c"
  pub scan_time : Bool → List ℕ → Option ClockTime

-- `protocol_value_error` for what was not parsed.
abbrev pub parsed {ℓ} : {A : Type ℓ} → Option A → Result A
parsed none = err (make_error_code protocol_value_error)
parsed (some a) = ok a

abbrev pub max_decimals : ℕ
max_decimals = 6

abbrev pub date_sz : ℕ
date_sz = 10

abbrev pub time_min_sz : ℕ
time_min_sz = 8

abbrev pub datetime_min_sz : ℕ
datetime_min_sz = 19

abbrev pub time_max_hour : ℕ
time_max_hour = 838

abbrev pub sanitize_decimals : ℕ → ℕ
sanitize_decimals decimals = min decimals max_decimals

-- `unsigned` arithmetic, with 32 bits.
abbrev pub compute_micros : ℕ → ℕ → ℕ
compute_micros parsed_micros decimals = parsed_micros * 10 ^ (max_decimals - decimals) % 2 ^ 32

-- The point and the decimals, if there are any.
abbrev pub decimals_size : ℕ → ℕ
decimals_size zero = 0
decimals_size (suc decimals) = suc decimals + 1

-- The microseconds of what was parsed: without decimals `micros` stays 0.
abbrev pub micros_of : ℕ → ClockTime → ℕ
micros_of zero t = 0
micros_of (suc decimals) t = compute_micros t.micros (suc decimals)

abbrev pub has_decimals : ℕ → Bool
has_decimals zero = false
has_decimals (suc decimals) = true

abbrev pub clock_micros : ℕ → ClockTime → ℕ
clock_micros micros t =
    t.hours * per_hour + t.minutes * per_minute + t.seconds * per_second + micros

module _ (lib : TextLibrary) (cal : Calendar) where
  unfoldable pub deserialize_text_value_int : Bool → List ℕ → Result Variant
  deserialize_text_value_int true from = do v ← parsed (lib.to_uint64 from); ok (uint64 v)
  deserialize_text_value_int false from = do v ← parsed (lib.to_int64 from); ok (int64 v)

  unfoldable pub deserialize_text_value_float :
      (List ℕ → Option ℕ) → (ℕ → Bool) → (ℕ → Variant) → List ℕ → Result Variant
  deserialize_text_value_float convert not_finite value from = do
    v ← parsed (convert from)
    if not_finite v then err (make_error_code protocol_value_error) else ok (value v)

  unfoldable pub deserialize_text_ymd : List ℕ → Result YearMonthDay
  deserialize_text_ymd from =
      if not (length from == date_sz) then err (make_error_code protocol_value_error) else (do
        (y, m, d) ← parsed (lib.scan_ymd from)
        if ltb 9999 y || ltb 12 m || ltb 31 d
            then err (make_error_code protocol_value_error)
            else ok (record { year = pos y; month = m; day = d }))

  unfoldable pub deserialize_text_value_date : List ℕ → Result Variant
  deserialize_text_value_date from = do
    ymd ← deserialize_text_ymd from
    if not (cal.is_ok ymd)
        then ok nullptr
        else if is_out_of_range cal (cal.days_of ymd)
        then err (make_error_code protocol_value_error)
        else ok (sys_days (cal.days_of ymd))

  unfoldable pub deserialize_text_value_datetime : ℕ → List ℕ → Result Variant
  deserialize_text_value_datetime meta_decimals from =
      let decimals = sanitize_decimals meta_decimals in
      if not (length from == datetime_min_sz + decimals_size decimals)
      then err (make_error_code protocol_value_error)
      else (do
        ymd ← deserialize_text_ymd (take date_sz from)
        t ← parsed (lib.scan_time_of_day (has_decimals decimals) (drop (date_sz + 1) from))
        let micros = micros_of decimals t
        if ltb 23 t.hours || ltb 59 t.minutes || ltb 59 t.seconds || ltb 999999 micros
            then err (make_error_code protocol_value_error)
            else if not (cal.is_ok ymd)
            then ok nullptr
            else if is_out_of_range cal (cal.days_of ymd)
            then err (make_error_code protocol_value_error)
            else ok (sys_time (cal.add_micros (cal.days_of ymd) (clock_micros micros t))))

  -- A sign, 45, in front is left out of what is scanned.
  abbrev pub sign_of : List ℕ → Bool
  sign_of [] = false
  sign_of (c ∷ from) = c == 45

  abbrev pub behind_sign : List ℕ → List ℕ
  behind_sign from = if sign_of from then drop 1 from else from

  unfoldable pub deserialize_text_value_time : ℕ → List ℕ → Result Variant
  deserialize_text_value_time meta_decimals from =
      let decimals = sanitize_decimals meta_decimals in
      let min_size = time_min_sz + decimals_size decimals in
      if ltb (length from) min_size || ltb (min_size + 1 + 1) (length from)
      then err (make_error_code protocol_value_error)
      else (do
        t ← parsed (lib.scan_time (has_decimals decimals) (behind_sign from))
        let micros = micros_of decimals t
        if ltb time_max_hour t.hours || ltb 59 t.minutes || ltb 59 t.seconds || ltb 999999 micros
            then err (make_error_code protocol_value_error)
            else ok (microseconds (with_sign (sign_of from) (clock_micros micros t))))

  -- All other types are strings.
  unfoldable pub text_value_by_type : ProtocolFieldType → FieldMetadata → List ℕ → Result Variant
  text_value_by_type tiny meta from = deserialize_text_value_int (is_unsigned meta) from
  text_value_by_type short_ meta from = deserialize_text_value_int (is_unsigned meta) from
  text_value_by_type int24 meta from = deserialize_text_value_int (is_unsigned meta) from
  text_value_by_type long_ meta from = deserialize_text_value_int (is_unsigned meta) from
  text_value_by_type year meta from = deserialize_text_value_int (is_unsigned meta) from
  text_value_by_type longlong meta from = deserialize_text_value_int (is_unsigned meta) from
  text_value_by_type float_ meta from =
      deserialize_text_value_float lib.to_float not_finite_float float_bits from
  text_value_by_type double_ meta from =
      deserialize_text_value_float lib.to_double not_finite_double double_bits from
  text_value_by_type timestamp meta from = deserialize_text_value_datetime meta.decimals from
  text_value_by_type datetime meta from = deserialize_text_value_datetime meta.decimals from
  text_value_by_type date meta from = deserialize_text_value_date from
  text_value_by_type time meta from = deserialize_text_value_time meta.decimals from
  text_value_by_type _ meta from = ok (string_view from)

  unfoldable pub deserialize_text_value : FieldMetadata → List ℕ → Result Variant
  deserialize_text_value meta from = text_value_by_type (protocol_type meta) meta from

abbrev pub is_next_field_null : DeserializationContext → Bool
is_next_field_null [] = false
is_next_field_null (b ∷ ctx) = b == 0xfb

module _ (lib : TextLibrary) (cal : Calendar) where
  -- The loop over the fields.
  unfoldable pub deserialize_text_fields :
      List FieldMetadata → DeserializationContext → Result (List Variant × DeserializationContext)
  deserialize_text_fields [] ctx = ok ([], ctx)
  deserialize_text_fields (field ∷ fields) ctx = do
    (value, rest) ← if is_next_field_null ctx then ok (nullptr, advance ctx 1) else (do
      (value_str, rest) ← deserialize_string_lenenc ctx
      value ← deserialize_text_value lib cal field value_str
      ok (value, rest))
    (values, behind) ← deserialize_text_fields fields rest
    ok (value ∷ values, behind)

  unfoldable pub deserialize_text_row :
      List FieldMetadata → DeserializationContext → Result (List Variant)
  deserialize_text_row fields ctx = do
    (values, rest) ← deserialize_text_fields fields ctx
    if not (empty rest) then err (make_error_code extra_bytes) else ok values
