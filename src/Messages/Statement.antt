-- ===== src/Messages/Statement.antt =====
-- prepared_statement_messages.hpp and impl/prepared_statement_messages.hpp: the messages of prepared
-- statements. The assertions on the number of parameters are taken as switched off.
pub mod Laws
pub mod Server
pub mod Params
pub mod RoundTrip
pub mod Tests
use mysql_asio.Base.{
  ℕ, ◌+◌, ◌*◌, ◌≡◌, refl, Bool, List, [], ◌∷◌, ◌++◌, Option, some, if◌then◌else◌, length, map,
  length-append, arith,
}
use mysql_asio.Base.Error.{Result, ok, err, ◌>>=◌}
use mysql_asio.Serialization.{
  FieldType, fixed_int, enumeration, int1, int2, int4, DeserializationContext, deserialize,
  serialize, get_size,
}
use mysql_asio.Serialization.Message.{
  SerializationTraits, serialize_struct, get_size_struct, length-serialize_struct,
}
use mysql_asio.Messages.Common.{string_command_traits}
use mysql_asio.Metadata.{protocol_byte}
use mysql_asio.NullBitmap.{
  NullBitmapTraits, byte_count, null_bitmap, stmt_execute_null_bitmap_offset,
}
use mysql_asio.Values.{Variant, is_nullptr, Calendar}
use mysql_asio.Values.Binary.Sending.{
  serialize_binary_value, get_binary_value_size, get_protocol_field_type, is_unsigned_value,
}

abbrev pub com_stmt_prepare_packet : SerializationTraits (List ℕ)
com_stmt_prepare_packet = string_command_traits 0x16

pub record ComStmtPrepareOkPacket : Type 0 where
  pub statement_id : ℕ
  pub num_columns : ℕ
  pub num_params : ℕ
  pub warning_count : ℕ

-- With the reserved byte, which is read and not kept.
abbrev pub prepare_ok_fields : List FieldType
prepare_ok_fields =
    fixed_int int4 ∷ fixed_int int2 ∷ fixed_int int2 ∷ fixed_int int1 ∷ fixed_int int2 ∷ []

unfoldable pub deserialize_prepare_ok :
    DeserializationContext → Result (ComStmtPrepareOkPacket × DeserializationContext)
deserialize_prepare_ok ctx = do
  ((id, (columns, (params, (reserved, (warn, _))))), rest) ← deserialize prepare_ok_fields ctx
  ok (
    record { statement_id = id; num_columns = columns; num_params = params; warning_count = warn },
    rest,
  )

-- The range of the parameters is their list.
pub record ComStmtExecutePacket : Type 0 where
  pub statement_id : ℕ
  pub flags : ℕ
  pub iteration_count : ℕ
  pub new_params_bind_flag : ℕ
  pub params : List Variant

-- The fields in front of the null bitmap, behind the command's id.
abbrev pub execute_fields : List FieldType
execute_fields = fixed_int int4 ∷ fixed_int int1 ∷ fixed_int int4 ∷ []

abbrev pub bind_flag_field : List FieldType
bind_flag_field = fixed_int int1 ∷ []

-- `com_stmt_execute_param_meta_packet`
abbrev pub param_meta_fields : List FieldType
param_meta_fields = enumeration int1 ∷ fixed_int int1 ∷ []

abbrev pub execute_bitmap : List Variant → NullBitmapTraits
execute_bitmap params = record {
  offset = stmt_execute_null_bitmap_offset;
  num_fields = length params;
}

abbrev pub unsigned_byte : Variant → ℕ
unsigned_byte v = if is_unsigned_value v then 0x80 else 0

-- The loops over the parameters.
unfoldable pub serialize_metas : List Variant → List ℕ
serialize_metas [] = []
serialize_metas (v ∷ vs) =
    serialize param_meta_fields (protocol_byte (get_protocol_field_type v), (unsigned_byte v, tt))
    ++ serialize_metas vs

unfoldable pub serialize_values : Calendar → List Variant → List ℕ
serialize_values cal [] = []
serialize_values cal (v ∷ vs) = serialize_binary_value cal v ++ serialize_values cal vs

unfoldable pub get_values_size : List Variant → ℕ
get_values_size [] = 0
get_values_size (v ∷ vs) = get_binary_value_size v + get_values_size vs

unfoldable pub serialize_execute : Calendar → ComStmtExecutePacket → List ℕ
serialize_execute cal input =
    serialize (fixed_int int1 ∷ execute_fields)
      (0x17, (input.statement_id, (input.flags, (input.iteration_count, tt))))
    ++ (null_bitmap (execute_bitmap input.params) (map is_nullptr input.params)
        ++ (serialize bind_flag_field (input.new_params_bind_flag, tt)
            ++ (serialize_metas input.params ++ serialize_values cal input.params)))

unfoldable pub get_size_execute : ComStmtExecutePacket → ℕ
get_size_execute value =
    1
    + get_size execute_fields (value.statement_id, (value.flags, (value.iteration_count, tt)))
    + byte_count (execute_bitmap value.params)
    + get_size bind_flag_field (value.new_params_bind_flag, tt)
    + get_size param_meta_fields (0, (0, tt)) * length value.params
    + get_values_size value.params

abbrev pub com_stmt_close_packet : SerializationTraits ℕ
com_stmt_close_packet = record {
  get_size_ = λ caps id. get_size_struct (some 0x19) (fixed_int int4 ∷ []) (id, tt);
  serialize_ = λ caps id. serialize_struct (some 0x19) (fixed_int int4 ∷ []) (id, tt);
}
