-- ===== src/Values/Text/Laws.antt =====
-- A row that a server sends in the text protocol is read back; and the range of a TIME.
use mysql_asio.Base.{
  ℕ, zero, suc, ◌+◌, ◌*◌, ◌≤◌, ◌<◌, ◌^◌, ◌≡◌, refl, ap, ◌∙◌, subst, Bool, true, false, ◌||◌, List,
  [], ◌∷◌, ◌++◌, Option, none, some, ◌⊎◌, length, map, ltb, ≢→==, append_assoc, ◌%◌, Bool-cases,
  inl, inr, arith, tests, if◌then◌else◌,
}
use mysql_asio.Base.Bytes.{to_le}
use mysql_asio.Base.Int.{ℤ}
use mysql_asio.Base.Error.{Result, ok, err, make_error_code, protocol_value_error}
use mysql_asio.Serialization.{
  string_lenenc, deserialize_field, serialize_field, deserialize_string_lenenc,
  serialize_int_lenenc, advance, empty,
}
use mysql_asio.Serialization.RoundTrip.{field_back}
use mysql_asio.Metadata.{FieldMetadata}
use mysql_asio.Values.{Variant, nullptr, microseconds, Calendar, magnitude, with_sign}
use mysql_asio.Values.Text.{
  TextLibrary, sanitize_decimals, micros_of, decimals_size, has_decimals, sign_of, behind_sign,
  deserialize_text_value, deserialize_text_value_time, is_next_field_null, deserialize_text_fields,
  deserialize_text_row,
}

-- A field of a row: NULL, or a text with the value that it stands for.
pub data TextField : Type 0 where
  absent : TextField
  present : Variant → List ℕ → TextField

abbrev pub value_of : TextField → Variant
value_of absent = nullptr
value_of (present v text) = v

-- The protocol's layout: the byte 0xfb for NULL, and else a string behind its length.
abbrev pub text_row : List TextField → List ℕ
text_row [] = []
text_row (absent ∷ fields) = 0xfb ∷ text_row fields
text_row (present v text ∷ fields) = (serialize_int_lenenc (length text) ++ text) ++ text_row fields

lenenc-not_null :
    (n : ℕ) (rest : List ℕ) → is_next_field_null (serialize_int_lenenc n ++ rest) ≡ false
unfolding serialize_int_lenenc to_le
lenenc-not_null n rest = elim (Bool-cases (ltb n 251)) [
  | inl e ↦ rw e (≢→== (n % 256) 0xfb (omega tests))
  | inr e ↦ elim (Bool-cases (ltb n 0x10000)) [
    | inl e' ↦ rw (e, e') refl
    | inr e' ↦ elim (Bool-cases (ltb n 0x1000000)) [
      | inl e'' ↦ rw (e, e', e'') refl
      | inr e'' ↦ rw (e, e', e'') refl
    ]
  ]
]

text_back :
    (text rest : List ℕ)
    → length text < 2 ^ 64
    → deserialize_string_lenenc ((serialize_int_lenenc (length text) ++ text) ++ rest)
      ≡ ok (text, rest)
unfolding deserialize_field serialize_field
text_back text rest h = field_back string_lenenc text rest h tt

Option-cases : {A : Type 0} (o : Option A) → (o ≡ none) ⊎ ((a : A) × (o ≡ some a))
Option-cases none = inl refl
Option-cases (some a) = inr (a, refl)

module _ (lib : TextLibrary) (cal : Calendar) where
  -- For the columns in order: the text is read as the value.
  abbrev pub AreTexts : List FieldMetadata → List TextField → Type 0
  AreTexts [] [] = Unit
  AreTexts [] (f ∷ fields) = ⊥
  AreTexts (m ∷ meta) [] = ⊥
  AreTexts (m ∷ meta) (absent ∷ fields) = AreTexts meta fields
  AreTexts (m ∷ meta) (present v text ∷ fields) =
      (length text < 2 ^ 64) × (deserialize_text_value lib cal m text ≡ ok v) × AreTexts meta fields

  text_fields_back :
      (meta : List FieldMetadata) (fields : List TextField)
      → AreTexts meta fields
      → deserialize_text_fields lib cal meta (text_row fields) ≡ ok (map value_of fields, [])
  unfolding deserialize_text_fields advance
  text_fields_back [] [] h = refl
  text_fields_back [] (f ∷ fields) h = absurd h
  text_fields_back (m ∷ meta) [] h = absurd h
  text_fields_back (m ∷ meta) (absent ∷ fields) h = rw (text_fields_back meta fields h) refl
  text_fields_back (m ∷ meta) (present v text ∷ fields) (fits, reads, h) =
      let starts : is_next_field_null
            ((serialize_int_lenenc (length text) ++ text) ++ text_row fields)
          ≡ false =
        ap is_next_field_null
          (append_assoc (serialize_int_lenenc (length text)) text (text_row fields))
        ∙ lenenc-not_null (length text) (text ++ text_row fields) in
      rw (starts, text_back text (text_row fields) fits, reads, text_fields_back meta fields h) refl

  -- From a row in the layout of the text protocol, with any number of columns, `deserialize_text_row`
  -- makes the value of each field, NULL for the byte 0xfb, if each column's text is read as its value
  -- by `deserialize_text_value` and its length fits into 64 bits.
  pub text_row_back :
      (meta : List FieldMetadata) (fields : List TextField)
      → AreTexts meta fields
      → deserialize_text_row lib cal meta (text_row fields) ≡ ok (map value_of fields)
  unfolding deserialize_text_row empty
  text_row_back meta fields h = rw (text_fields_back meta fields h) refl

  magnitude-with_sign : (negative : Bool) (k : ℕ) → magnitude (with_sign negative k) ≡ k
  magnitude-with_sign false k = refl
  magnitude-with_sign true zero = refl
  magnitude-with_sign true (suc k) = refl

  abbrev IsSmall : Variant → Type 0
  IsSmall (microseconds t) = magnitude t ≤ 3020399999999
  IsSmall _ = Unit

  abbrev Bounded : Result Variant → Type 0
  Bounded (err code) = Unit
  Bounded (ok v) = IsSmall v

  or-false : (a b : Bool) → (a || b) ≡ false → (a ≡ false) × (b ≡ false)
  or-false true b h = cc
  or-false false b h = (refl, h)

  -- The range check in front of the sum.
  checked-Bounded :
      (h m s micros : ℕ) (negative : Bool)
      → Bounded (
          if ltb 838 h || ltb 59 m || ltb 59 s || ltb 999999 micros
          then err (make_error_code protocol_value_error)
          else ok (
              microseconds
                (with_sign negative (h * 3600000000 + m * 60000000 + s * 1000000 + micros))))
  checked-Bounded h m s micros negative =
      elim (Bool-cases (ltb 838 h || ltb 59 m || ltb 59 s || ltb 999999 micros)) [
        | inl e ↦ rw e tt
        | inr e ↦
            let (e1, sub) = or-false (ltb 838 h || ltb 59 m || ltb 59 s) (ltb 999999 micros) e in
            let (e2, seconds) = or-false (ltb 838 h || ltb 59 m) (ltb 59 s) e1 in
            let (hours, minutes) = or-false (ltb 838 h) (ltb 59 m) e2 in
            rw
              (
                e,
                magnitude-with_sign negative (h * 3600000000 + m * 60000000 + s * 1000000 + micros),
              )
              (ground (arith, hours, minutes, seconds, sub))
      ]

  time-Bounded :
      (decimals : ℕ) (from : List ℕ) → Bounded (deserialize_text_value_time lib cal decimals from)
  unfolding deserialize_text_value_time
  time-Bounded decimals from =
      let d = sanitize_decimals decimals in
      elim (Bool-cases (
        ltb (length from) (8 + decimals_size d)
        || ltb (8 + decimals_size d + 1 + 1) (length from))) [
          | inl e ↦ rw e tt
          | inr e ↦
              elim (Option-cases (lib.scan_time (has_decimals d) (behind_sign lib cal from))) [
                | inl nothing ↦ rw (e, nothing) tt
                | inr (t, got) ↦
                    rw (e, got)
                      (checked-Bounded t.hours t.minutes t.seconds (micros_of d t)
                        (sign_of lib cal from))
              ]
        ]

  -- Whatever `sscanf` gives: a TIME that is read lies between -838:59:59.999999 and 838:59:59.999999.
  pub text_time-range :
      (decimals : ℕ) (from : List ℕ) (t : ℤ)
      → deserialize_text_value_time lib cal decimals from ≡ ok (microseconds t)
      → magnitude t ≤ 3020399999999
  text_time-range decimals from t h = subst Bounded h (time-Bounded decimals from)
