-- ===== src/Values/Binary/RoundTrip.antt =====
-- A value that was sent in the binary protocol is read back.
use mysql_asio.Base.{
  ◌≤◌, ℕ, ◌*◌, ◌^◌, ◌<◌, ◌≡◌, refl, Bool, false, List, [], ◌∷◌, ◌++◌, length, arith, le→leb,
  length-append, take-append_exact, drop-append_exact,
}
use mysql_asio.Base.Int.{IsInRange}
use mysql_asio.Base.Bytes.{to_le, length-to_le, from_le-to_le}
use mysql_asio.Base.Error.{ok}
use mysql_asio.Serialization.{int8, fixed_int, signed_int, string_lenenc, get_int_size}
use mysql_asio.Serialization.RoundTrip.{deserialize-serialize}
use mysql_asio.Values.{
  Variant, nullptr, int64, uint64, string_view, float_bits, double_bits, sys_days, sys_time,
  microseconds, Calendar, is_out_of_range, per_hour, magnitude,
}
use mysql_asio.Values.Binary.{
  deserialize_binary_value_int, deserialize_binary_value_string, not_finite_float,
  not_finite_double, deserialize_binary_value_float, deserialize_by_type,
}
use mysql_asio.Values.Binary.Sending.{
  get_protocol_field_type, is_unsigned_value, serialize_binary_value,
}
use mysql_asio.Values.Binary.Times.{time_back}
use mysql_asio.Values.Binary.Dates.{IsLawful, date_back, datetime_back}

-- The values that a parameter of a statement can have: in the range of the C++ type, and from
-- `min_date` to `max_date`, `min_datetime` to `max_datetime` and `min_time` to `max_time`, which is
-- 839 hours either way. NULL is not sent as a value.
abbrev pub IsSendable : Calendar → Variant → Type 0
IsSendable cal nullptr = ⊥
IsSendable cal (int64 v) = IsInRange (2 ^ 64) v
IsSendable cal (uint64 v) = v < 2 ^ 64
IsSendable cal (string_view v) = length v < 2 ^ 64
IsSendable cal (float_bits w) = (w < 2 ^ 32) × (not_finite_float w ≡ false)
IsSendable cal (double_bits w) = (w < 2 ^ 64) × (not_finite_double w ≡ false)
IsSendable cal (sys_days v) = is_out_of_range cal v ≡ false
IsSendable cal (sys_time v) = is_out_of_range cal (cal.floor_days v) ≡ false
IsSendable cal (microseconds v) = magnitude v ≤ 839 * per_hour

float_back :
    (size : ℕ) (not_finite : ℕ → Bool) (value : ℕ → Variant) (w : ℕ) (rest : List ℕ)
    → w < 256 ^ size
    → not_finite w ≡ false
    → deserialize_binary_value_float size not_finite value (to_le size w ++ rest)
      ≡ ok (value w, rest)
unfolding deserialize_binary_value_float
float_back size not_finite value w rest h f =
    rw
      (
        le→leb size (length (to_le size w ++ rest))
            (omega (arith, length-append (to_le size w) rest, length-to_le size w)),
        take-append_exact size (to_le size w) rest (length-to_le size w),
        drop-append_exact size (to_le size w) rest (length-to_le size w),
        from_le-to_le size w h,
        f,
      )
      refl

-- For every value that can be sent, with a date library that keeps its promises: from the bytes that
-- were written for it, behind which others may follow, it is read back by the type and the unsigned
-- flag that are sent with it, and just those bytes are taken.
pub deserialize-serialize_binary_value :
    (cal : Calendar)
    → IsLawful cal
    → (v : Variant) (rest : List ℕ) → IsSendable cal v
    → deserialize_by_type cal
        (get_protocol_field_type v)
        (is_unsigned_value v)
        (serialize_binary_value cal v ++ rest)
      ≡ ok (v, rest)
unfolding deserialize_by_type get_protocol_field_type is_unsigned_value serialize_binary_value
    deserialize_binary_value_int deserialize_binary_value_string get_int_size
deserialize-serialize_binary_value cal law nullptr rest h = absurd h
deserialize-serialize_binary_value cal law (int64 v) rest h =
    rw (deserialize-serialize (signed_int int8 ∷ []) (v, tt) rest (h, tt) (tt, tt)) refl
deserialize-serialize_binary_value cal law (uint64 v) rest h =
    rw (deserialize-serialize (fixed_int int8 ∷ []) (v, tt) rest (h, tt) (tt, tt)) refl
deserialize-serialize_binary_value cal law (string_view v) rest h =
    rw (deserialize-serialize (string_lenenc ∷ []) (v, tt) rest (h, tt) (tt, tt)) refl
deserialize-serialize_binary_value cal law (float_bits w) rest (h, f) =
    float_back 4 not_finite_float float_bits w rest h f
deserialize-serialize_binary_value cal law (double_bits w) rest (h, f) =
    float_back 8 not_finite_double double_bits w rest h f
deserialize-serialize_binary_value cal law (sys_days v) rest h = date_back cal law v rest h
deserialize-serialize_binary_value cal law (sys_time v) rest h = datetime_back cal law v rest h
deserialize-serialize_binary_value cal law (microseconds v) rest h =
    time_back v rest (omega (arith, h))
