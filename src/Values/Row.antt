-- ===== src/Values/Row.antt =====
-- `deserialize_binary_row` of detail/protocol/impl/binary_deserialization.ipp: a row of the binary
-- protocol. The assertion that there is a first byte holds where `process_read_message` calls it.
pub mod RoundTrip
use mysql_asio.Base.{ℕ, suc, Bool, not, List, [], ◌∷◌, if◌then◌else◌, length}
use mysql_asio.Base.Error.{Result, ok, err, ◌>>=◌, make_error_code, incomplete_message, extra_bytes}
use mysql_asio.Serialization.{DeserializationContext, enough_size, advance, empty}
use mysql_asio.Metadata.{FieldMetadata}
use mysql_asio.NullBitmap.{NullBitmapTraits, byte_count, is_null, binary_row_null_bitmap_offset}
use mysql_asio.Values.{Variant, nullptr, Calendar}
use mysql_asio.Values.Binary.{deserialize_binary_value}

-- The loop over the fields, with the pointer to the bitmap.
unfoldable pub deserialize_fields :
    Calendar
    → NullBitmapTraits
    → List ℕ
    → ℕ
    → List FieldMetadata
    → DeserializationContext
    → Result (List Variant × DeserializationContext)
deserialize_fields cal t bitmap i [] ctx = ok ([], ctx)
deserialize_fields cal t bitmap i (field ∷ meta) ctx = do
  (value, rest) ←
      if is_null t bitmap i then ok (nullptr, ctx) else deserialize_binary_value cal field ctx
  (values, behind) ← deserialize_fields cal t bitmap (suc i) meta rest
  ok (value ∷ values, behind)

abbrev pub row_bitmap : List FieldMetadata → NullBitmapTraits
row_bitmap meta = record { offset = binary_row_null_bitmap_offset; num_fields = length meta }

unfoldable pub deserialize_binary_row :
    Calendar → List FieldMetadata → DeserializationContext → Result (List Variant)
unfolding advance enough_size empty
deserialize_binary_row cal meta ctx =
    let bitmap = advance ctx 1 in
    let size = byte_count (row_bitmap meta) in
    if not (enough_size bitmap size) then err (make_error_code incomplete_message) else (do
      (values, rest) ← deserialize_fields cal (row_bitmap meta) bitmap 0 meta (advance bitmap size)
      if empty rest then ok values else err (make_error_code extra_bytes))
