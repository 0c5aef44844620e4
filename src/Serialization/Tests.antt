-- ===== src/Serialization/Tests.antt =====
-- The serialization templates at concrete fields.
use mysql_asio.Base.{◌≡◌, refl, List, [], ◌∷◌, ◌++◌, arith}
use mysql_asio.Base.Bytes.{to_le, from_le}
use mysql_asio.Base.Error.{ok, err, make_error_code, incomplete_message}
use mysql_asio.Serialization.{
  FieldType, int_lenenc, string_lenenc, Values, deserialize, serialize, deserialize_int_lenenc,
}
use mysql_asio.Serialization.Readers.{IsLocal, FailsShort}
use mysql_asio.Serialization.Consumed.{deserialize_reads}
use mysql_asio.Serialization.RoundTrip.{deserialize-serialize}
use mysql_asio.Serialization.Truncated.{deserialize_truncated}

abbrev two_fields : List FieldType
two_fields = int_lenenc ∷ string_lenenc ∷ []

abbrev two_values : Values two_fields
two_values = (300, (b'o' ∷ b'k' ∷ [], tt))

two_bytes : serialize two_fields two_values ≡ 0xfc ∷ 44 ∷ 1 ∷ 2 ∷ b'o' ∷ b'k' ∷ []
unfolding serialize to_le
two_bytes = refl

-- The first byte 0xfb, which the protocol uses for NULL, is read as the number 251.
null_marker : deserialize_int_lenenc (0xfb ∷ []) ≡ ok (251, [])
unfolding deserialize_int_lenenc from_le
null_marker = refl

deserialize-serialize_example :
    deserialize two_fields (serialize two_fields two_values ++ (9 ∷ [])) ≡ ok (two_values, 9 ∷ [])
deserialize-serialize_example =
    deserialize-serialize two_fields two_values (9 ∷ []) (omega arith, (omega arith, tt))
      (tt, (tt, tt))

deserialize_reads_example : FailsShort (deserialize two_fields) × IsLocal (deserialize two_fields)
deserialize_reads_example = deserialize_reads two_fields (tt, (tt, tt))

deserialize_truncated_example :
    deserialize two_fields (0xfc ∷ 44 ∷ 1 ∷ 2 ∷ []) ≡ err (make_error_code incomplete_message)
deserialize_truncated_example =
    deserialize_truncated two_fields two_values (0xfc ∷ 44 ∷ 1 ∷ 2 ∷ []) (b'k' ∷ []) b'o'
      (tt, (tt, tt)) (omega arith, (omega arith, tt)) two_bytes
