-- ===== src/Serialization.antt =====
-- include/boost/mysql/detail/protocol/serialization.hpp with impl/serialization.hpp and
-- impl/serialization.ipp, protocol_types.hpp, serialization_context.hpp and
-- deserialization_context.hpp: how one value of a protocol type is read from and written to bytes,
-- and how the variadic templates do it for the fields of a message.
--
-- A `deserialization_context` is the list of the bytes of [first_, last_): moving `first_` forward
-- drops bytes. A failed read returns its `errc` only, as no caller looks at the context or at the
-- output after one. A `serialization_context` is seen by its writes, in order: `serialize_field`
-- gives the bytes, and `serialize_message` puts them into the buffer that it has sized.
pub mod Shape
pub mod Append
pub mod Length
pub mod Readers
pub mod Consumed
pub mod RoundTrip
pub mod Truncated
pub mod Message
pub mod Sizes
pub mod Tests
use mysql_asio.Base.{
  ℕ, zero, suc, ◌+◌, ◌-◌, ◌*◌, ◌≤◌, ◌<◌, ◌^◌, Bool, true, false, List, [], ◌∷◌, ◌++◌, ltb, leb,
  ◌==◌, if◌then◌else◌, length, take, drop, replicate,
}
use mysql_asio.Base.Bytes.{to_le, from_le}
use mysql_asio.Base.Int.{ℤ, to_pattern, from_pattern}
use mysql_asio.Base.Error.{
  Errc, Result, ok, err, ◌>>=◌, make_error_code, incomplete_message, extra_bytes,
}

-- The widths of the fixed-size integers.
pub data FixedInt : Type 0 where
  int1 int2 int3 int4 int6 int8 : FixedInt

unfoldable pub get_int_size : FixedInt → ℕ
get_int_size int1 = 1
get_int_size int2 = 2
get_int_size int3 = 3
get_int_size int4 = 4
get_int_size int6 = 6
get_int_size int8 = 8

-- The types that `serialization_traits` is specialised for, structs apart. `enumeration` holds the
-- width of the enum's underlying type.
pub data FieldType : Type 0 where
  fixed_int signed_int enumeration : FixedInt → FieldType
  int_lenenc string_null string_eof string_lenenc : FieldType
  string_fixed : ℕ → FieldType

-- The C++ value of each type; text is its bytes.
abbrev pub Value : FieldType → Type 0
Value (fixed_int t) = ℕ
Value (signed_int t) = ℤ
Value (enumeration t) = ℕ
Value int_lenenc = ℕ
Value string_null = List ℕ
Value string_eof = List ℕ
Value string_lenenc = List ℕ
Value (string_fixed n) = List ℕ

abbrev pub DeserializationContext : Type 0
DeserializationContext = List ℕ

unfoldable pub enough_size : DeserializationContext → ℕ → Bool
enough_size ctx required_size = leb required_size (length ctx)

unfoldable pub advance : DeserializationContext → ℕ → DeserializationContext
advance ctx sz = drop sz ctx

-- `rewind(1)`, with the byte that has just been read.
unfoldable pub rewind : ℕ → DeserializationContext → DeserializationContext
rewind last_byte ctx = last_byte ∷ ctx

unfoldable pub empty : DeserializationContext → Bool
empty [] = true
empty (b ∷ ctx) = false

-- `memcpy` of `size` bytes, if there are so many.
unfoldable pub copy : ℕ → DeserializationContext → Result (List ℕ × DeserializationContext)
unfolding enough_size advance
copy sz ctx =
    if enough_size ctx sz
    then ok (take sz ctx, advance ctx sz)
    else err (make_error_code incomplete_message)

unfoldable pub deserialize_fixed_int :
    FixedInt → DeserializationContext → Result (ℕ × DeserializationContext)
unfolding enough_size advance get_int_size
deserialize_fixed_int t ctx =
    let size = get_int_size t in
    if enough_size ctx size
    then ok (from_le (take size ctx), advance ctx size)
    else err (make_error_code incomplete_message)

-- The members of `intN_signed` are signed, so the same bytes stand for a signed number.
unfoldable pub deserialize_signed_int :
    FixedInt → DeserializationContext → Result (ℤ × DeserializationContext)
unfolding deserialize_fixed_int
deserialize_signed_int t ctx = do
  (w, rest) ← deserialize_fixed_int t ctx
  ok (from_pattern (256 ^ get_int_size t) w, rest)

unfoldable pub deserialize_int_lenenc : DeserializationContext → Result (ℕ × DeserializationContext)
unfolding deserialize_fixed_int
deserialize_int_lenenc ctx = do
  (first_byte, rest) ← deserialize_fixed_int int1 ctx
  if first_byte == 0xfc
      then deserialize_fixed_int int2 rest
      else if first_byte == 0xfd
      then deserialize_fixed_int int3 rest
      else if first_byte == 0xfe
      then deserialize_fixed_int int8 rest
      else ok (first_byte, rest)

-- `std::find` of the terminator, and the move behind it.
unfoldable pub deserialize_string_null :
    DeserializationContext → Result (List ℕ × DeserializationContext)
deserialize_string_null [] = err (make_error_code incomplete_message)
deserialize_string_null (b ∷ rest) =
    let found = deserialize_string_null rest in
    if b == 0 then ok ([], rest) else (found >>= λ (s, behind). ok (b ∷ s, behind))

unfoldable pub deserialize_string_eof :
    DeserializationContext → Result (List ℕ × DeserializationContext)
deserialize_string_eof ctx = ok (ctx, [])

-- `length.value > std::numeric_limits<std::size_t>::max()` cannot hold where `size_t` has 64 bits.
unfoldable pub deserialize_string_lenenc :
    DeserializationContext → Result (List ℕ × DeserializationContext)
unfolding deserialize_int_lenenc enough_size advance
deserialize_string_lenenc ctx = do
  (len, rest) ← deserialize_int_lenenc ctx
  if enough_size rest len
      then ok (take len rest, advance rest len)
      else err (make_error_code incomplete_message)

unfoldable pub deserialize_string_fixed :
    ℕ → DeserializationContext → Result (List ℕ × DeserializationContext)
unfolding enough_size advance
deserialize_string_fixed n ctx =
    if enough_size ctx n
    then ok (take n ctx, advance ctx n)
    else err (make_error_code incomplete_message)

-- `serialization_traits<T>::deserialize_`
unfoldable pub deserialize_field :
    (t : FieldType) → DeserializationContext → Result (Value t × DeserializationContext)
deserialize_field (fixed_int t) = deserialize_fixed_int t
deserialize_field (signed_int t) = deserialize_signed_int t
deserialize_field (enumeration t) = deserialize_fixed_int t
deserialize_field int_lenenc = deserialize_int_lenenc
deserialize_field string_null = deserialize_string_null
deserialize_field string_eof = deserialize_string_eof
deserialize_field string_lenenc = deserialize_string_lenenc
deserialize_field (string_fixed n) = deserialize_string_fixed n

-- The writes of `serialization_traits<T>::serialize_`. A cast to `uintN_t` keeps the low bytes, as
-- `to_le` does.
unfoldable pub serialize_int_lenenc : ℕ → List ℕ
serialize_int_lenenc input =
    if ltb input 251
    then to_le 1 input
    else if ltb input 0x10000
    then 0xfc ∷ to_le 2 input
    else if ltb input 0x1000000
    then 0xfd ∷ to_le 3 input
    else 0xfe ∷ to_le 8 input

unfoldable pub serialize_field : (t : FieldType) → Value t → List ℕ
unfolding serialize_int_lenenc
serialize_field (fixed_int t) input = to_le (get_int_size t) input
serialize_field (signed_int t) input =
    to_le (get_int_size t) (to_pattern (256 ^ get_int_size t) input)
serialize_field (enumeration t) input = to_le (get_int_size t) input
serialize_field int_lenenc input = serialize_int_lenenc input
serialize_field string_null input = input ++ (0 ∷ [])
serialize_field string_eof input = input
serialize_field string_lenenc input = serialize_int_lenenc (length input) ++ input
serialize_field (string_fixed n) input = input

unfoldable pub get_size_int_lenenc : ℕ → ℕ
get_size_int_lenenc input =
    if ltb input 251
    then 1
    else if ltb input 0x10000
    then 3
    else if ltb input 0x1000000
    then 4
    else 9

-- `serialization_traits<T>::get_size_`
unfoldable pub get_size_field : (t : FieldType) → Value t → ℕ
unfolding get_size_int_lenenc
get_size_field (fixed_int t) input = get_int_size t
get_size_field (signed_int t) input = get_int_size t
get_size_field (enumeration t) input = get_int_size t
get_size_field int_lenenc input = get_size_int_lenenc input
get_size_field string_null input = length input + 1
get_size_field string_eof input = length input
get_size_field string_lenenc input = get_size_int_lenenc (length input) + length input
get_size_field (string_fixed n) input = n

-- The arguments of the variadic templates: one value for each type.
abbrev pub Values : List FieldType → Type 0
Values [] = Unit {0}
Values (t ∷ ts) = Value t × Values ts

unfoldable pub deserialize :
    (ts : List FieldType) → DeserializationContext → Result (Values ts × DeserializationContext)
unfolding deserialize_field
deserialize [] ctx = ok (tt, ctx)
deserialize (t ∷ ts) ctx = do
  (first, rest) ← deserialize_field t ctx
  (tail, behind) ← deserialize ts rest
  ok ((first, tail), behind)

unfoldable pub serialize : (ts : List FieldType) → Values ts → List ℕ
unfolding serialize_field
serialize [] input = []
serialize (t ∷ ts) (first, tail) = serialize_field t first ++ serialize ts tail

unfoldable pub get_size : (ts : List FieldType) → Values ts → ℕ
unfolding get_size_field
get_size [] input = 0
get_size (t ∷ ts) (first, tail) = get_size_field t first + get_size ts tail
