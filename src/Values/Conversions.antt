-- ===== src/Values/Conversions.antt =====
-- The conversions of include/boost/mysql/impl/value.hpp: `get_optional`, `is_convertible_to` and `get`
-- for the types that a value can be asked for, with the three types that convert. The widening of a
-- float to a double is a parameter.
use mysql_asio.Base.{
  ℕ, ◌^◌, ◌≤◌, ◌<◌, ◌≡◌, refl, sym, ap, Bool, true, false, Option, none, some, leb, le→leb, ◌-◌,
  if◌then◌else◌,
}
use mysql_asio.Base.Int.{ℤ, pos, negsuc}
use mysql_asio.Values.{
  Variant, nullptr, int64, uint64, string_view, float_bits, double_bits, sys_days, sys_time,
  microseconds,
}

-- The types that a value can be asked for.
pub data Requested : Type 0 where
  int64_type uint64_type string_type float_type double_type date_type datetime_type time_type :
      Requested

-- `numeric_limits<int64_t>::max()`
abbrev pub int64_max : ℕ
int64_max = 2 ^ 63 - 1

-- `get_optional_noconv`: the value itself, if it has the type.
unfoldable pub get_optional_noconv : Requested → Variant → Option Variant
get_optional_noconv int64_type (int64 z) = some (int64 z)
get_optional_noconv uint64_type (uint64 n) = some (uint64 n)
get_optional_noconv string_type (string_view s) = some (string_view s)
get_optional_noconv float_type (float_bits w) = some (float_bits w)
get_optional_noconv double_type (double_bits w) = some (double_bits w)
get_optional_noconv date_type (sys_days d) = some (sys_days d)
get_optional_noconv datetime_type (sys_time t) = some (sys_time t)
get_optional_noconv time_type (microseconds t) = some (microseconds t)
get_optional_noconv requested v = none

-- The second half of each specialisation, for a value of another type.
abbrev pub to_uint64 : Variant → Option Variant
to_uint64 (int64 (pos n)) = some (uint64 n)
to_uint64 v = none

abbrev pub to_int64 : Variant → Option Variant
to_int64 (uint64 n) = if leb n int64_max then some (int64 (pos n)) else none
to_int64 v = none

abbrev pub to_double : (ℕ → ℕ) → Variant → Option Variant
to_double widen (float_bits w) = some (double_bits (widen w))
to_double widen v = none

abbrev or_converted : Option Variant → Option Variant → Option Variant
or_converted (some v) converted = some v
or_converted none converted = converted

unfoldable pub get_optional : (ℕ → ℕ) → Requested → Variant → Option Variant
get_optional widen uint64_type v = or_converted (get_optional_noconv uint64_type v) (to_uint64 v)
get_optional widen int64_type v = or_converted (get_optional_noconv int64_type v) (to_int64 v)
get_optional widen double_type v =
    or_converted (get_optional_noconv double_type v) (to_double widen v)
get_optional widen requested v = get_optional_noconv requested v

unfoldable pub is_convertible_to : (ℕ → ℕ) → Requested → Variant → Bool
unfolding get_optional
is_convertible_to widen requested v = elim (get_optional widen requested v) [
  | none ↦ false
  | some w ↦ true
]

-- The number that a value of an integer type holds.
abbrev pub number : Variant → Option ℤ
number (int64 z) = some z
number (uint64 n) = some (pos n)
number v = none

-- The sizes of the C++ types.
abbrev pub IsStored : Variant → Type 0
IsStored (int64 (pos n)) = n ≤ int64_max
IsStored (int64 (negsuc n)) = n ≤ int64_max
IsStored (uint64 n) = n < 2 ^ 64
IsStored v = Unit

abbrev pub as_int64 : ℤ → Option Variant
as_int64 (pos n) = if leb n int64_max then some (int64 (pos n)) else none
as_int64 (negsuc n) = if leb n int64_max then some (int64 (negsuc n)) else none

abbrev pub as_uint64 : ℤ → Option Variant
as_uint64 (pos n) = some (uint64 n)
as_uint64 (negsuc n) = none

number_held : (held z : ℤ) → Path (Option ℤ) (some held) (some z) → z ≡ held
number_held held z h = sym (ap (λ o. elim o [ none ↦ held | some x ↦ x ]) h)

no_number : (z : ℤ) → Path (Option ℤ) none (some z) → ⊥
no_number z h = cc

-- A value of either integer type, of the size of its type: asked for as an `int64_t` or as a
-- `uint64_t`, it gives the number that it holds if that is in the range of the type that was asked
-- for, and nothing if it is not.
pub get_optional_integer :
    (widen : ℕ → ℕ) (v : Variant) (z : ℤ)
    → number v ≡ some z
    → IsStored v
    → (get_optional widen int64_type v ≡ as_int64 z)
      × (get_optional widen uint64_type v ≡ as_uint64 z)
unfolding get_optional get_optional_noconv
get_optional_integer widen (int64 (pos n)) z h fits =
    rw (number_held (pos n) z h, le→leb n int64_max fits) (refl, refl)
get_optional_integer widen (int64 (negsuc n)) z h fits =
    rw (number_held (negsuc n) z h, le→leb n int64_max fits) (refl, refl)
get_optional_integer widen (uint64 n) z h fits = rw (number_held (pos n) z h) (refl, refl)
get_optional_integer widen nullptr z h fits = absurd (no_number z h)
get_optional_integer widen (string_view s) z h fits = absurd (no_number z h)
get_optional_integer widen (float_bits w) z h fits = absurd (no_number z h)
get_optional_integer widen (double_bits w) z h fits = absurd (no_number z h)
get_optional_integer widen (sys_days d) z h fits = absurd (no_number z h)
get_optional_integer widen (sys_time t) z h fits = absurd (no_number z h)
get_optional_integer widen (microseconds t) z h fits = absurd (no_number z h)
