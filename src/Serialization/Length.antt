-- ===== src/Serialization/Length.antt =====
-- `get_size` announces what `serialize` writes.
use mysql_asio.Base.{ℕ, ◌≡◌, refl, List, [], ◌∷◌, length, length-append, arith}
use mysql_asio.Base.Bytes.{length-to_le}
use mysql_asio.Serialization.{
  FieldType, fixed_int, signed_int, enumeration, int_lenenc, string_null, string_eof, string_lenenc,
  string_fixed, Value, Values, get_int_size, serialize_int_lenenc, serialize_field, serialize,
  get_size_int_lenenc, get_size_field, get_size,
}
use mysql_asio.Serialization.Shape.{HasShape, AllHaveShape}

pub length-serialize_int_lenenc : (v : ℕ) → length (serialize_int_lenenc v) ≡ get_size_int_lenenc v
unfolding serialize_int_lenenc get_size_int_lenenc
length-serialize_int_lenenc v =
    ground (arith, length-to_le 1 v, length-to_le 2 v, length-to_le 3 v, length-to_le 8 v)

pub length-serialize_field :
    (t : FieldType) (v : Value t) → HasShape t v → length (serialize_field t v) ≡ get_size_field t v
unfolding serialize_field get_size_field
length-serialize_field (fixed_int t) v h = length-to_le (get_int_size t) v
length-serialize_field (signed_int t) v h = length-to_le (get_int_size t) _
length-serialize_field (enumeration t) v h = length-to_le (get_int_size t) v
length-serialize_field int_lenenc v h = length-serialize_int_lenenc v
length-serialize_field string_null v h = length-append v (0 ∷ [])
length-serialize_field string_eof v h = refl
length-serialize_field string_lenenc v h = omega (
  arith,
  length-append (serialize_int_lenenc (length v)) v,
  length-serialize_int_lenenc (length v),
)
length-serialize_field (string_fixed n) v h = h

-- For every list of types, the bytes that `serialize` writes are as many as `get_size` says, if
-- each fixed string has its size.
pub length-serialize :
    (ts : List FieldType) (vs : Values ts)
    → AllHaveShape ts vs
    → length (serialize ts vs) ≡ get_size ts vs
unfolding serialize get_size
length-serialize [] vs h = refl
length-serialize (t ∷ ts) (v, vs) (h, hs) = omega (
  arith,
  length-append (serialize_field t v) (serialize ts vs),
  length-serialize_field t v h,
  length-serialize ts vs hs,
)
