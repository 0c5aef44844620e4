-- ===== src/Values/Tests.antt =====
-- Runs of the binary encoding of values.
use mysql_asio.NullBitmap.Layout.{bit_at}
use mysql_asio.Base.{
  zero, suc, ◌+◌, ◌<◌, get_or, ℕ, ◌^◌, none, some, true, false, sym, ap, ◌∙◌, ◌≡◌, ◌++◌, List, [],
  ◌∷◌, arith, refl,
}
use mysql_asio.Base.Int.{pos, negsuc}
use mysql_asio.Base.Error.{ok}
use mysql_asio.Values.{Variant, nullptr, uint64, sys_time, int64, is_out_of_range}
use mysql_asio.Values.Conversions.{
  int64_max, int64_type, uint64_type, get_optional_noconv, get_optional, is_convertible_to,
  get_optional_integer,
}
use mysql_asio.Values.Row.{deserialize_binary_row}
use mysql_asio.Values.Row.RoundTrip.{
  IsRowBitmap, Field, absent, present, AreRead, binary_row, binary_row_back,
}
use mysql_asio.Metadata.{
  FieldMetadata, longlong, protocol_type, protocol_field_type, is_unsigned, flag_set,
}
use mysql_asio.Values.Plain.{plain, plain-IsLawful}
use mysql_asio.Values.Binary.{deserialize_by_type, deserialize_binary_value}
use mysql_asio.Values.Binary.Sending.{
  get_protocol_field_type, is_unsigned_value, serialize_binary_value,
}
use mysql_asio.Values.Binary.RoundTrip.{IsSendable, deserialize-serialize_binary_value}

in_range : is_out_of_range plain (pos 745000) ≡ false
unfolding is_out_of_range
in_range = refl

-- A `datetime` some 2000 years after the calendar's first day.
deserialize-serialize_binary_value_example :
    deserialize_by_type plain
      (get_protocol_field_type (sys_time (pos 64368012345678901)))
      (is_unsigned_value (sys_time (pos 64368012345678901)))
      (serialize_binary_value plain (sys_time (pos 64368012345678901)) ++ (7 ∷ []))
    ≡ ok (sys_time (pos 64368012345678901), 7 ∷ [])
deserialize-serialize_binary_value_example =
    deserialize-serialize_binary_value plain plain-IsLawful (sys_time (pos 64368012345678901))
      (7 ∷ []) in_range

-- A column of type BIGINT with a name of no bytes.
abbrev bigint : FieldMetadata
bigint = record {
  catalog = [];
  schema = [];
  table = [];
  org_table = [];
  name = [];
  org_name = [];
  character_set = 63;
  column_length = 20;
  type = 8;
  flags = 0;
  decimals = 0;
}

-- Two numbers around a NULL.
abbrev three_fields : List Field
three_fields =
    present (int64 (negsuc 1)) (serialize_binary_value plain (int64 (negsuc 1)))
    ∷ absent
    ∷ present (int64 (pos 7)) (serialize_binary_value plain (int64 (pos 7)))
    ∷ []

bigint_read :
    (v : Variant) (rest : List ℕ)
    → get_protocol_field_type v ≡ longlong
    → is_unsigned_value v ≡ false
    → IsSendable plain v
    → deserialize_binary_value plain bigint (serialize_binary_value plain v ++ rest) ≡ ok (v, rest)
unfolding deserialize_binary_value protocol_type protocol_field_type is_unsigned flag_set
bigint_read v rest type_eq flag_eq h =
    let back = deserialize-serialize_binary_value plain plain-IsLawful v rest h in
    let bytes = serialize_binary_value plain v ++ rest in
    ap (λ t. deserialize_by_type plain t false bytes) (sym type_eq)
    ∙ ap (λ u. deserialize_by_type plain (get_protocol_field_type v) u bytes) (sym flag_eq)
    ∙ back

three_fields-AreRead : AreRead plain (bigint ∷ bigint ∷ bigint ∷ []) three_fields
unfolding get_protocol_field_type is_unsigned_value
three_fields-AreRead = (
  λ rest. bigint_read (int64 (negsuc 1)) rest refl refl (omega arith),
  (λ rest. bigint_read (int64 (pos 7)) rest refl refl (omega arith), tt),
)

middle_bit : (k : ℕ) → k < 3 → bit_at (8 ∷ []) (k + 2) ≡ get_or (false ∷ true ∷ false ∷ []) k false
middle_bit zero l = refl
middle_bit (suc zero) l = refl
middle_bit (suc (suc zero)) l = refl
middle_bit (suc (suc (suc k))) l = absurd (omega arith)

-- The fourth bit of the byte is that of the second field, behind two that are not used.
middle-IsRowBitmap : IsRowBitmap (8 ∷ []) (false ∷ true ∷ false ∷ [])
middle-IsRowBitmap = record { size = refl; bytes = (omega arith, tt); bits = middle_bit }

binary_row_back_example :
    deserialize_binary_row plain (bigint ∷ bigint ∷ bigint ∷ []) (binary_row (8 ∷ []) three_fields)
    ≡ ok (int64 (negsuc 1) ∷ nullptr ∷ int64 (pos 7) ∷ [])
binary_row_back_example =
    binary_row_back plain (bigint ∷ bigint ∷ bigint ∷ []) three_fields (8 ∷ []) middle-IsRowBitmap
      three_fields-AreRead

-- 2 to the 63, held as a `uint64_t`, is not an `int64_t`; the number below it is.
get_optional_integer_example :
    (get_optional (λ w. w) int64_type (uint64 (2 ^ 63)) ≡ none)
    × (get_optional (λ w. w) uint64_type (uint64 (2 ^ 63)) ≡ some (uint64 (2 ^ 63)))
get_optional_integer_example =
    get_optional_integer (λ w. w) (uint64 (2 ^ 63)) (pos (2 ^ 63)) refl (omega arith)

largest_converted : is_convertible_to (λ w. w) int64_type (uint64 int64_max) ≡ true
unfolding is_convertible_to get_optional get_optional_noconv
largest_converted = refl
