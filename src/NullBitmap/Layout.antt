-- ===== src/NullBitmap/Layout.antt =====
-- The bits of a bitmap as the protocol numbers them, without the traits of the code.
use mysql_asio.Base.{ℕ, ◌+◌, ◌/◌, ◌%◌, ◌^◌, ◌≡◌, Bool, List, ◌==◌, get_or, All, All-get_or, arith}
use mysql_asio.Base.Bytes.{IsByte}
use mysql_asio.NullBitmap.{NullBitmapTraits, byte_pos, bit_pos, is_null}
use mysql_asio.NullBitmap.Bits.{test_bit_lem}

-- The binary digit with a number, counted from the least of the first byte.
abbrev pub bit_at : List ℕ → ℕ → Bool
bit_at bytes k = get_or bytes (k / 8) 0 / 2 ^ (k % 8) % 2 == 1

-- `is_null` reads the bit of the field behind those that the offset leaves out.
pub is_null-bit_at :
    (t : NullBitmapTraits) (bitmap : List ℕ) (q : ℕ)
    → All IsByte bitmap
    → is_null t bitmap q ≡ bit_at bitmap (q + t.offset)
unfolding is_null byte_pos bit_pos
is_null-bit_at t bitmap q h =
    test_bit_lem (get_or bitmap ((q + t.offset) / 8) 0) ((q + t.offset) % 8)
      (All-get_or IsByte bitmap ((q + t.offset) / 8) 0 h (omega arith)) (omega arith)
