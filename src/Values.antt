-- ===== src/Values.antt =====
-- include/boost/mysql/value.hpp, and impl/binary_serialization.ipp and impl/binary_deserialization.ipp of
-- detail/protocol: SQL values, and their form in the binary protocol.
--
-- The date library is not part of the library: what the code uses of it are the fields of a `Calendar`.
-- A float is its bit pattern, as `memcpy` sees it.
pub mod Binary
pub mod Row
pub mod Text
pub mod Plain
pub mod Conversions
pub mod Tests
use mysql_asio.Base.{
  ℕ, zero, suc, ◌+◌, ◌*◌, ◌/◌, ◌%◌, ◌^◌, Bool, true, false, ◌||◌, not, List, [], ◌∷◌, ◌++◌, ltb,
  leb, ◌==◌, if◌then◌else◌, length,
}
use mysql_asio.Base.Int.{ℤ, pos, negsuc, to_pattern}
use mysql_asio.Base.Bytes.{to_le}

-- `value::variant_type`. A `date` is its `sys_days`, a `datetime` its `sys_time` and a `time` its
-- `microseconds`: counts of days and of microseconds.
pub data Variant : Type 0 where
  nullptr : Variant
  int64 : ℤ → Variant
  uint64 : ℕ → Variant
  string_view : List ℕ → Variant
  float_bits : ℕ → Variant
  double_bits : ℕ → Variant
  sys_days : ℤ → Variant
  sys_time : ℤ → Variant
  microseconds : ℤ → Variant

-- `value::is_null`
abbrev pub is_nullptr : Variant → Bool
is_nullptr nullptr = true
is_nullptr (int64 z) = false
is_nullptr (uint64 n) = false
is_nullptr (string_view s) = false
is_nullptr (float_bits w) = false
is_nullptr (double_bits w) = false
is_nullptr (sys_days d) = false
is_nullptr (sys_time t) = false
is_nullptr (microseconds t) = false

-- `::date::year_month_day`
pub record YearMonthDay : Type 0 where
  pub year : ℤ
  pub month : ℕ
  pub day : ℕ

-- `::date::time_of_day<std::chrono::microseconds>`
pub record TimeOfDay : Type 0 where
  pub hours : ℕ
  pub minutes : ℕ
  pub seconds : ℕ
  pub subseconds : ℕ

-- The date library: `year_month_day` of days and back, its `ok`, `floor<days>` of microseconds, the
-- `time_of_day` of what is left, the sum of days and microseconds, and the order of days.
pub record Calendar : Type 0 where
  pub ymd_of : ℤ → YearMonthDay
  pub days_of : YearMonthDay → ℤ
  pub is_ok : YearMonthDay → Bool
  pub floor_days : ℤ → ℤ
  pub time_of_day : ℤ → TimeOfDay
  pub add_micros : ℤ → ℕ → ℤ
  pub before : ℤ → ℤ → Bool

abbrev pub min_date : Calendar → ℤ
min_date cal = cal.days_of (record { year = pos 0; month = 1; day = 1 })

abbrev pub max_date : Calendar → ℤ
max_date cal = cal.days_of (record { year = pos 9999; month = 12; day = 31 })

unfoldable pub is_out_of_range : Calendar → ℤ → Bool
is_out_of_range cal d = cal.before d (min_date cal) || cal.before (max_date cal) d

-- The microseconds of the units of `std::chrono`.
abbrev pub per_second : ℕ
per_second = 1000000

abbrev pub per_minute : ℕ
per_minute = 60000000

abbrev pub per_hour : ℕ
per_hour = 3600000000

abbrev pub per_day : ℕ
per_day = 86400000000

-- `std::abs` of a count, and a count that is less than 0.
abbrev pub magnitude : ℤ → ℕ
magnitude (pos k) = k
magnitude (negsuc k) = suc k

abbrev pub is_negative : ℤ → Bool
is_negative (pos k) = false
is_negative (negsuc k) = true

-- The product with 1 or -1.
abbrev pub with_sign : Bool → ℕ → ℤ
with_sign false k = pos k
with_sign true zero = pos 0
with_sign true (suc k) = negsuc k
