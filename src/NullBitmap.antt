-- ===== src/NullBitmap.antt =====
-- include/boost/mysql/detail/protocol/null_bitmap_traits.hpp: one bit for each field of a binary row
-- or of an execute message, set if the field is NULL. A bitmap is the list of its bytes.
pub mod Bits
pub mod Layout
pub mod Laws
use mysql_asio.Base.{
  ℕ, suc, ◌+◌, ◌/◌, ◌%◌, ◌^◌, Bool, not, List, [], ◌∷◌, ◌==◌, if◌then◌else◌, get_or, set, replicate,
  bit_and, bit_or,
}

pub record NullBitmapTraits : Type 0 where
  pub offset : ℕ
  pub num_fields : ℕ

unfoldable pub byte_pos : NullBitmapTraits → ℕ → ℕ
byte_pos t field_pos = (field_pos + t.offset) / 8

unfoldable pub bit_pos : NullBitmapTraits → ℕ → ℕ
bit_pos t field_pos = (field_pos + t.offset) % 8

unfoldable pub byte_count : NullBitmapTraits → ℕ
byte_count t = (t.num_fields + 7 + t.offset) / 8

-- The bit of `1 << pos` in a byte, and the byte with that bit.
abbrev pub test_bit : ℕ → ℕ → Bool
test_bit byte pos = not (bit_and byte (2 ^ pos) == 0)

abbrev pub with_bit : ℕ → ℕ → ℕ
with_bit byte pos = bit_or byte (2 ^ pos)

unfoldable pub is_null : NullBitmapTraits → List ℕ → ℕ → Bool
is_null t bitmap field_pos = test_bit (get_or bitmap (byte_pos t field_pos) 0) (bit_pos t field_pos)

unfoldable pub set_null : NullBitmapTraits → List ℕ → ℕ → List ℕ
set_null t bitmap field_pos =
    set bitmap (byte_pos t field_pos)
      (with_bit (get_or bitmap (byte_pos t field_pos) 0) (bit_pos t field_pos))

abbrev pub stmt_execute_null_bitmap_offset : ℕ
stmt_execute_null_bitmap_offset = 0

abbrev pub binary_row_null_bitmap_offset : ℕ
binary_row_null_bitmap_offset = 2

-- The loop over the fields from `i` on; the flags say which are NULL.
unfoldable pub set_nulls : NullBitmapTraits → ℕ → List Bool → List ℕ → List ℕ
set_nulls t i [] bitmap = bitmap
set_nulls t i (null ∷ flags) bitmap =
    set_nulls t (suc i) flags (if null then set_null t bitmap i else bitmap)

-- The bitmap of fields, from zeroed memory.
unfoldable pub null_bitmap : NullBitmapTraits → List Bool → List ℕ
null_bitmap t flags = set_nulls t 0 flags (replicate (byte_count t) 0)
