-- ===== src/Serialization/RoundTrip.antt =====
-- `deserialize` reads back what `serialize` wrote.

use mysql_asio.Base.{
  ℕ, ◌<◌, ◌^◌, ◌≡◌, ◌≢◌, refl, ap, ◌∙◌, List, [], ◌∷◌, ◌++◌, length, length-append, All,
  take-append_exact, drop-append_exact, append_assoc, append-nil, arith, ltb, le→leb, Bool-cases,
  inl, inr, tests,
}
use mysql_asio.Base.Bytes.{to_le, from_le, length-to_le, from_le-to_le}
use mysql_asio.Base.Int.{ℤ, to_pattern, to_pattern-lt, from_pattern-to_pattern, IsInRange}
use mysql_asio.Base.Error.{ok}
use mysql_asio.Serialization.{
  FixedInt, int1, int2, int3, int8, FieldType, fixed_int, signed_int, enumeration, int_lenenc,
  string_null, string_eof, string_lenenc, string_fixed, Value, Values, get_int_size,
  deserialize_fixed_int, deserialize_signed_int, deserialize_int_lenenc, deserialize_string_null,
  deserialize_string_lenenc, deserialize_string_fixed, deserialize_string_eof, deserialize_field,
  deserialize, serialize_int_lenenc, serialize_field, serialize,
}
use mysql_asio.Serialization.Shape.{Fits, AllFit}
use mysql_asio.Serialization.Readers.{take_read}
use mysql_asio.Serialization.Consumed.{lenenc_tail, int_lenenc_eq}

take_read-append :
    {A : Type 0} (n : ℕ) (f : List ℕ → A) (xs rest : List ℕ)
    → length xs ≡ n
    → take_read n f (xs ++ rest) ≡ ok (f xs, rest)
take_read-append n f xs rest h = rw (
  le→leb n (length (xs ++ rest)) (omega (arith, length-append xs rest)),
  take-append_exact n xs rest h,
  drop-append_exact n xs rest h,
)

pub fixed_int_back :
    (t : FixedInt) (v : ℕ) (rest : List ℕ)
    → v < 256 ^ get_int_size t
    → deserialize_fixed_int t (to_le (get_int_size t) v ++ rest) ≡ ok (v, rest)
unfolding deserialize_fixed_int
fixed_int_back t v rest h =
    take_read-append (get_int_size t) from_le (to_le (get_int_size t) v) rest (length-to_le _ v)
    ∙ ap (λ w. ok (w, rest)) (from_le-to_le (get_int_size t) v h)

signed_int_back :
    (t : FixedInt) (v : ℤ) (rest : List ℕ)
    → IsInRange (256 ^ get_int_size t) v
    → deserialize_signed_int t
        (to_le (get_int_size t) (to_pattern (256 ^ get_int_size t) v) ++ rest)
      ≡ ok (v, rest)
unfolding deserialize_signed_int
signed_int_back t v rest h = rw (
  fixed_int_back t (to_pattern (256 ^ get_int_size t) v) rest (to_pattern-lt _ v h),
  from_pattern-to_pattern _ v h,
)

-- The first byte, and what is then read behind a marker.
first_byte :
    (b : ℕ) (rest : List ℕ) → b < 256 → deserialize_fixed_int int1 (b ∷ rest) ≡ ok (b, rest)
unfolding deserialize_fixed_int from_le
first_byte b rest h = ground arith

lenenc_first :
    (b : ℕ) (rest : List ℕ) → b < 256 → deserialize_int_lenenc (b ∷ rest) ≡ lenenc_tail b rest
lenenc_first b rest h = int_lenenc_eq (b ∷ rest) ∙ rw (first_byte b rest h)

one_byte : (v : ℕ) → v < 256 → to_le 1 v ≡ v ∷ []
unfolding to_le
one_byte v h = ap (λ (w : ℕ). w ∷ []) (omega arith)

pub int_lenenc_back :
    (v : ℕ) (rest : List ℕ)
    → v < 2 ^ 64
    → deserialize_int_lenenc (serialize_int_lenenc v ++ rest) ≡ ok (v, rest)
unfolding serialize_int_lenenc deserialize_fixed_int
int_lenenc_back v rest h = elim (Bool-cases (ltb v 251)) [
  | inl e ↦ rw (e, one_byte v (omega tests)) (lenenc_first v rest (omega tests) ∙ ground arith)
  | inr e ↦ elim (Bool-cases (ltb v 0x10000)) [
    | inl e' ↦
        rw (e, e')
          (lenenc_first 0xfc (to_le 2 v ++ rest) (omega arith)
            ∙ fixed_int_back int2 v rest (unfold get_int_size in omega tests))
    | inr e' ↦ elim (Bool-cases (ltb v 0x1000000)) [
      | inl e'' ↦
          rw (e, e', e'')
            (lenenc_first 0xfd (to_le 3 v ++ rest) (omega arith)
              ∙ fixed_int_back int3 v rest (unfold get_int_size in omega tests))
      | inr e'' ↦
          rw (e, e', e'')
            (lenenc_first 0xfe (to_le 8 v ++ rest) (omega arith)
              ∙ fixed_int_back int8 v rest (unfold get_int_size in omega tests))
    ]
  ]
]

string_null_back :
    (s rest : List ℕ)
    → All (λ b. b ≢ 0) s
    → deserialize_string_null ((s ++ (0 ∷ [])) ++ rest) ≡ ok (s, rest)
unfolding deserialize_string_null
string_null_back [] rest h = refl
string_null_back (b ∷ s) rest (h, hs) = rw (string_null_back s rest hs) (ground arith)

-- What follows a field of this type. Only a last `string_eof` is read back, with nothing behind it.
abbrev pub Ends : FieldType → List ℕ → Type 0
Ends string_eof behind = behind ≡ []
Ends (fixed_int t) behind = Unit
Ends (signed_int t) behind = Unit
Ends (enumeration t) behind = Unit
Ends int_lenenc behind = Unit
Ends string_null behind = Unit
Ends string_lenenc behind = Unit
Ends (string_fixed n) behind = Unit

abbrev pub AllEnd : (ts : List FieldType) → Values ts → List ℕ → Type 0
AllEnd [] vs rest = Unit
AllEnd (t ∷ ts) (v, vs) rest = Ends t (serialize ts vs ++ rest) × AllEnd ts vs rest

pub field_back :
    (t : FieldType) (v : Value t) (rest : List ℕ)
    → Fits t v
    → Ends t rest
    → deserialize_field t (serialize_field t v ++ rest) ≡ ok (v, rest)
unfolding deserialize_field serialize_field deserialize_string_lenenc deserialize_string_fixed
    deserialize_string_eof
field_back (fixed_int t) v rest h d = fixed_int_back t v rest h
field_back (signed_int t) v rest h d = signed_int_back t v rest h
field_back (enumeration t) v rest h d = fixed_int_back t v rest h
field_back int_lenenc v rest h d = int_lenenc_back v rest h
field_back string_null v rest h d = string_null_back v rest h
field_back string_eof v rest h d = rw (d, append-nil)
field_back string_lenenc v rest h d =
    rw
      (
        append_assoc (serialize_int_lenenc (length v)) v rest,
        int_lenenc_back (length v) (v ++ rest) h,
      )
      (take_read-append (length v) (λ l. l) v rest refl)
field_back (string_fixed n) v rest h d = take_read-append n (λ l. l) v rest h

-- For every list of types and values in their range, `deserialize` reads the values back from what
-- `serialize` wrote and leaves the bytes behind, if a `string_eof` has none behind it.
pub deserialize-serialize :
    (ts : List FieldType) (vs : Values ts) (rest : List ℕ)
    → AllFit ts vs
    → AllEnd ts vs rest
    → deserialize ts (serialize ts vs ++ rest) ≡ ok (vs, rest)
unfolding deserialize serialize
deserialize-serialize [] vs rest h d = refl
deserialize-serialize (t ∷ ts) (v, vs) rest (h, hs) (d, ds) =
    rw
      (
        append_assoc (serialize_field t v) (serialize ts vs) rest,
        field_back t v (serialize ts vs ++ rest) h d,
        deserialize-serialize ts vs rest hs ds,
      )
      refl
