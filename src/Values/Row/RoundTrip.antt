-- ===== src/Values/Row/RoundTrip.antt =====
-- A row that a server sends in the binary protocol is read back.
use mysql_asio.Base.{
  All, ◌/◌, ℕ, suc, ◌+◌, ◌<◌, ◌≡◌, refl, ap, ◌∙◌, Bool, true, false, List, [], ◌∷◌, ◌++◌, length,
  map, get_or, length-append, drop-append_exact, le→leb, arith,
}
use mysql_asio.Base.Error.{ok}
use mysql_asio.Serialization.{enough_size, advance}
use mysql_asio.Metadata.{FieldMetadata}
use mysql_asio.NullBitmap.{NullBitmapTraits, byte_count, is_null}
use mysql_asio.NullBitmap.Laws.{IsBitmap, is_null-append}
use mysql_asio.NullBitmap.Layout.{bit_at, is_null-bit_at}
use mysql_asio.Base.Bytes.{IsByte}
use mysql_asio.Values.{Variant, nullptr, Calendar}
use mysql_asio.Values.Binary.{deserialize_binary_value}
use mysql_asio.Values.Row.{deserialize_fields, row_bitmap, deserialize_binary_row}

-- A field of a row: NULL, which has no bytes, or a value with the bytes that stand for it.
pub data Field : Type 0 where
  absent : Field
  present : Variant → List ℕ → Field

abbrev pub value_of : Field → Variant
value_of absent = nullptr
value_of (present v bytes) = v

abbrev pub is_absent : Field → Bool
is_absent absent = true
is_absent (present v bytes) = false

abbrev pub field_bytes : List Field → List ℕ
field_bytes [] = []
field_bytes (absent ∷ fields) = field_bytes fields
field_bytes (present v bytes ∷ fields) = bytes ++ field_bytes fields

-- For the columns in order: the bytes are read as the value, whatever stands behind them.
abbrev pub AreRead : Calendar → List FieldMetadata → List Field → Type 0
AreRead cal [] [] = Unit
AreRead cal [] (f ∷ fields) = ⊥
AreRead cal (m ∷ meta) [] = ⊥
AreRead cal (m ∷ meta) (absent ∷ fields) = AreRead cal meta fields
AreRead cal (m ∷ meta) (present v bytes ∷ fields) =
    ((rest : List ℕ) → deserialize_binary_value cal m (bytes ++ rest) ≡ ok (v, rest))
    × AreRead cal meta fields

-- The protocol's bitmap of a row: it has room for two bits and one for each field, and bit k + 2 says
-- whether field k is NULL.
pub record IsRowBitmap (bitmap : List ℕ) (absences : List Bool) : Type 0 where
  pub size : length bitmap ≡ (length absences + 2 + 7) / 8
  pub bytes : All IsByte bitmap
  pub bits : (k : ℕ) → k < length absences → bit_at bitmap (k + 2) ≡ get_or absences k false

-- The protocol's layout: a zero, the null bitmap, the values.
abbrev pub binary_row : List ℕ → List Field → List ℕ
binary_row bitmap fields = 0 ∷ (bitmap ++ field_bytes fields)

fields_back :
    (cal : Calendar) (t : NullBitmapTraits) (bitmap : List ℕ) (i : ℕ) (meta : List FieldMetadata)
    (fields : List Field)
    → AreRead cal meta fields
    → ((k : ℕ) → k < length meta → is_null t bitmap (i + k) ≡ get_or (map is_absent fields) k false)
    → deserialize_fields cal t bitmap i meta (field_bytes fields) ≡ ok (map value_of fields, [])
unfolding deserialize_fields
fields_back cal t bitmap i [] [] h f = refl
fields_back cal t bitmap i [] (g ∷ fields) h f = absurd h
fields_back cal t bitmap i (m ∷ meta) [] h f = absurd h
fields_back cal t bitmap i (m ∷ meta) (absent ∷ fields) h f =
    let here : is_null t bitmap i ≡ true =
      ap (is_null t bitmap) {x = i} {y = i + 0} (omega arith) ∙ f 0 (omega arith) in
    rw
      (
        here,
        fields_back cal t bitmap (suc i) meta fields h (λ k l.
            ap (is_null t bitmap) {x = suc i + k} {y = i + suc k} (omega arith)
            ∙ f (suc k) (omega arith)),
      )
      refl
fields_back cal t bitmap i (m ∷ meta) (present v bytes ∷ fields) (h, hs) f =
    let here : is_null t bitmap i ≡ false =
      ap (is_null t bitmap) {x = i} {y = i + 0} (omega arith) ∙ f 0 (omega arith) in
    rw
      (
        here,
        h (field_bytes fields),
        fields_back cal t bitmap (suc i) meta fields hs (λ k l.
            ap (is_null t bitmap) {x = suc i + k} {y = i + suc k} (omega arith)
            ∙ f (suc k) (omega arith)),
      )
      refl

length-AreRead :
    (cal : Calendar) (meta : List FieldMetadata) (fields : List Field)
    → AreRead cal meta fields
    → length (map is_absent fields) ≡ length meta
length-AreRead cal [] [] h = refl
length-AreRead cal [] (f ∷ fields) h = absurd h
length-AreRead cal (m ∷ meta) [] h = absurd h
length-AreRead cal (m ∷ meta) (absent ∷ fields) h = ap suc (length-AreRead cal meta fields h)
length-AreRead cal (m ∷ meta) (present v bytes ∷ fields) (h, hs) =
    ap suc (length-AreRead cal meta fields hs)

-- From a row in the protocol's layout, with any number of columns, `deserialize_binary_row` makes the
-- value of each field, NULL where the null bitmap says so, if each column's bytes are read as its
-- value by `deserialize_binary_value`.
pub binary_row_back :
    (cal : Calendar) (meta : List FieldMetadata) (fields : List Field) (bitmap : List ℕ)
    → IsRowBitmap bitmap (map is_absent fields)
    → AreRead cal meta fields
    → deserialize_binary_row cal meta (binary_row bitmap fields) ≡ ok (map value_of fields)
unfolding deserialize_binary_row advance enough_size byte_count
binary_row_back cal meta fields bitmap b h =
    let t = row_bitmap meta in
    let columns = length-AreRead cal meta fields h in
    let shape : IsBitmap t bitmap = record {
      size = omega (arith, b.size, columns);
      bytes = b.bytes;
    } in
    let reads = fields_back cal t (bitmap ++ field_bytes fields) 0 meta fields h (λ k l.
      ap (is_null t (bitmap ++ field_bytes fields)) {x = 0 + k} {y = k} (omega arith)
      ∙ is_null-append t bitmap (field_bytes fields) k shape l
      ∙ is_null-bit_at t bitmap k b.bytes
      ∙ b.bits k (omega (arith, columns))) in
    rw
      (
        le→leb (byte_count t) (length (bitmap ++ field_bytes fields))
            (omega (arith, shape.size, length-append bitmap (field_bytes fields))),
        drop-append_exact (byte_count t) bitmap (field_bytes fields) shape.size,
        reads,
      )
      refl
