-- ===== src/Serialization/Shape.antt =====
-- The values that a type of serialization.hpp can hold, and the types that mark their own end.
use mysql_asio.Base.{◌<◌, ◌^◌, ◌≡◌, ◌≢◌, List, [], ◌∷◌, length, All}
use mysql_asio.Base.Int.{IsInRange}
use mysql_asio.Serialization.{
  FieldType, fixed_int, signed_int, enumeration, int_lenenc, string_null, string_eof, string_lenenc,
  string_fixed, Value, Values, get_int_size,
}

-- The range of the C++ type; a `string_null` holds no terminator inside.
abbrev pub Fits : (t : FieldType) → Value t → Type 0
Fits (fixed_int t) v = v < 256 ^ get_int_size t
Fits (signed_int t) v = IsInRange (256 ^ get_int_size t) v
Fits (enumeration t) v = v < 256 ^ get_int_size t
Fits int_lenenc v = v < 2 ^ 64
Fits string_null v = All (λ b. b ≢ 0) v
Fits string_eof v = Unit
Fits string_lenenc v = length v < 2 ^ 64
Fits (string_fixed n) v = length v ≡ n

abbrev pub AllFit : (ts : List FieldType) → Values ts → Type 0
AllFit [] vs = Unit
AllFit (t ∷ ts) (v, vs) = Fits t v × AllFit ts vs

-- Every type but `string_eof`, which takes whatever is left.
abbrev pub IsDelimited : FieldType → Type 0
IsDelimited string_eof = ⊥
IsDelimited (fixed_int t) = Unit
IsDelimited (signed_int t) = Unit
IsDelimited (enumeration t) = Unit
IsDelimited int_lenenc = Unit
IsDelimited string_null = Unit
IsDelimited string_lenenc = Unit
IsDelimited (string_fixed n) = Unit

-- A fixed string has its size. The other types have no such condition.
abbrev pub HasShape : (t : FieldType) → Value t → Type 0
HasShape (fixed_int t) v = Unit
HasShape (signed_int t) v = Unit
HasShape (enumeration t) v = Unit
HasShape int_lenenc v = Unit
HasShape string_null v = Unit
HasShape string_eof v = Unit
HasShape string_lenenc v = Unit
HasShape (string_fixed n) v = length v ≡ n

abbrev pub AllHaveShape : (ts : List FieldType) → Values ts → Type 0
AllHaveShape [] vs = Unit
AllHaveShape (t ∷ ts) (v, vs) = HasShape t v × AllHaveShape ts vs
