-- ===== src/Values/Binary/Sizes.antt =====
-- The size that is announced for a value is the size of its bytes.
use mysql_asio.Base.{◌∙◌, ℕ, ◌+◌, ◌%◌, ◌≡◌, refl, List, [], ◌∷◌, ◌++◌, length, length-append, arith}
use mysql_asio.Base.Bytes.{length-to_le}
use mysql_asio.Serialization.{
  fixed_int, signed_int, string_lenenc, int8, Values, get_int_size, serialize, get_size,
  get_size_field,
}
use mysql_asio.Serialization.Length.{length-serialize}
use mysql_asio.Values.{
  Variant, nullptr, int64, uint64, string_view, float_bits, double_bits, sys_days, sys_time,
  microseconds, Calendar, YearMonthDay, magnitude, per_second,
}
use mysql_asio.Values.Binary.Sending.{
  ymd_fields, hms_fields, one_byte, four_bytes, sign_dhms_fields, serialize_binary_ymd,
  serialize_binary_date, serialize_binary_datetime, serialize_binary_time, serialize_binary_value,
  get_binary_value_size,
}

length-one_byte : (v : ℕ) → length (serialize one_byte (v, tt)) ≡ 1
unfolding get_size get_size_field get_int_size
length-one_byte v = length-serialize one_byte (v, tt) (tt, tt)

length-four_bytes : (v : ℕ) → length (serialize four_bytes (v, tt)) ≡ 4
unfolding get_size get_size_field get_int_size
length-four_bytes v = length-serialize four_bytes (v, tt) (tt, tt)

length-hms : (vs : Values hms_fields) → length (serialize hms_fields vs) ≡ 3
unfolding get_size get_size_field get_int_size
length-hms vs = length-serialize hms_fields vs (tt, (tt, (tt, tt)))

length-sign_dhms : (vs : Values sign_dhms_fields) → length (serialize sign_dhms_fields vs) ≡ 8
unfolding get_size get_size_field get_int_size
length-sign_dhms vs = length-serialize sign_dhms_fields vs (tt, (tt, (tt, (tt, (tt, tt)))))

length-ymd : (ymd : YearMonthDay) → length (serialize_binary_ymd ymd) ≡ 4
unfolding serialize_binary_ymd get_size get_size_field get_int_size
length-ymd ymd = length-serialize ymd_fields _ (tt, (tt, (tt, tt)))

length-four :
    (a b c d : List ℕ)
    → length (a ++ (b ++ (c ++ d))) ≡ length a + (length b + (length c + length d))
length-four a b c d =
    omega (arith, length-append a (b ++ (c ++ d)), length-append b (c ++ d), length-append c d)

length-three :
    (a b c : List ℕ) {k l m : ℕ}
    → length a ≡ k
    → length b ≡ l
    → length c ≡ m
    → length (a ++ (b ++ c)) ≡ k + (l + m)
length-three a b c h i j = omega (arith, length-append a (b ++ c), length-append b c)

-- For every value, `get_binary_value_size` is the number of bytes that `serialize_binary_value`
-- writes.
pub length-serialize_binary_value :
    (cal : Calendar) (v : Variant) → length (serialize_binary_value cal v) ≡ get_binary_value_size v
unfolding serialize_binary_value get_binary_value_size serialize_binary_date
    serialize_binary_datetime serialize_binary_time get_size get_int_size
length-serialize_binary_value cal nullptr = refl
length-serialize_binary_value cal (int64 v) =
    length-serialize (signed_int int8 ∷ []) (v, tt) (tt, tt)
length-serialize_binary_value cal (uint64 v) =
    length-serialize (fixed_int int8 ∷ []) (v, tt) (tt, tt)
length-serialize_binary_value cal (string_view v) =
    length-serialize (string_lenenc ∷ []) (v, tt) (tt, tt)
length-serialize_binary_value cal (float_bits w) = length-to_le 4 w
length-serialize_binary_value cal (double_bits w) = length-to_le 8 w
length-serialize_binary_value cal (sys_days v) = omega (
  arith,
  length-append (serialize one_byte (4, tt)) (serialize_binary_ymd (cal.ymd_of v)),
  length-one_byte 4,
  length-ymd (cal.ymd_of v),
)
length-serialize_binary_value cal (sys_time v) =
    let tod = cal.time_of_day v in
    length-four (serialize one_byte (11, tt)) (serialize_binary_ymd (cal.ymd_of (cal.floor_days v)))
      (serialize hms_fields (tod.hours, (tod.minutes, (tod.seconds, tt))))
      (serialize four_bytes (tod.subseconds, tt))
    ∙ omega (
      arith,
      length-one_byte 11,
      length-ymd (cal.ymd_of (cal.floor_days v)),
      length-hms (tod.hours, (tod.minutes, (tod.seconds, tt))),
      length-four_bytes tod.subseconds,
    )
length-serialize_binary_value cal (microseconds v) =
    length-three (serialize one_byte (12, tt)) (serialize sign_dhms_fields _)
      (serialize four_bytes (magnitude v % per_second, tt)) (length-one_byte 12)
      (length-sign_dhms _) (length-four_bytes (magnitude v % per_second))
