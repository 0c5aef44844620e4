-- ===== src/Messages/Common.antt =====
-- common_messages.hpp, impl/common_messages.ipp and query_messages.hpp: the packet header, the OK,
-- error and column definition packets, and the commands that quit and query.
use mysql_asio.Base.{ℕ, List, [], ◌∷◌, some, if◌then◌else◌}
use mysql_asio.Base.Error.{Result, ok, err, ◌>>=◌, ErrorCode, ErrorInfo, make_error_code}
use mysql_asio.Serialization.{
  FieldType, fixed_int, enumeration, int_lenenc, string_eof, string_lenenc, string_fixed, int1,
  int2, int3, int4, Values, DeserializationContext, enough_size, deserialize, serialize,
}
use mysql_asio.Serialization.Message.{
  SerializationTraits, serialize_struct, get_size_struct, deserialize_message,
}

pub record PacketHeader : Type 0 where
  pub packet_size : ℕ
  pub sequence_number : ℕ

abbrev pub packet_header_fields : List FieldType
packet_header_fields = fixed_int int3 ∷ fixed_int int1 ∷ []

unfoldable pub deserialize_packet_header :
    DeserializationContext → Result (PacketHeader × DeserializationContext)
deserialize_packet_header ctx = do
  ((size, (seq, _)), rest) ← deserialize packet_header_fields ctx
  ok (record { packet_size = size; sequence_number = seq }, rest)

unfoldable pub serialize_packet_header : PacketHeader → List ℕ
serialize_packet_header header =
    serialize packet_header_fields (header.packet_size, (header.sequence_number, tt))

pub record OkPacket : Type 0 where
  pub affected_rows : ℕ
  pub last_insert_id : ℕ
  pub status_flags : ℕ
  pub warnings : ℕ
  pub info : List ℕ

-- Default-initialised members.
abbrev pub empty_ok_packet : OkPacket
empty_ok_packet = record {
  affected_rows = 0;
  last_insert_id = 0;
  status_flags = 0;
  warnings = 0;
  info = [];
}

abbrev pub ok_packet_fields : List FieldType
ok_packet_fields = int_lenenc ∷ int_lenenc ∷ fixed_int int2 ∷ fixed_int int2 ∷ []

-- `output` is the packet that is filled: without an info string on the wire its `info` stays.
unfoldable pub deserialize_ok_packet :
    OkPacket → DeserializationContext → Result (OkPacket × DeserializationContext)
unfolding enough_size
deserialize_ok_packet output ctx = do
  ((rows, (id, (status, (warn, _)))), rest) ← deserialize ok_packet_fields ctx
  let read = record output {
    affected_rows = rows;
    last_insert_id = id;
    status_flags = status;
    warnings = warn;
  }
  if enough_size rest 1
      then (deserialize (string_lenenc ∷ []) rest >>= λ (s, behind).
          ok (record read { info = s.0 }, behind))
      else ok (read, rest)

pub record ErrPacket : Type 0 where
  pub error_code : ℕ
  pub sql_state_marker : List ℕ
  pub sql_state : List ℕ
  pub error_message : List ℕ

abbrev pub err_packet_fields : List FieldType
err_packet_fields = fixed_int int2 ∷ string_fixed 1 ∷ string_fixed 5 ∷ string_eof ∷ []

unfoldable pub deserialize_err_packet :
    DeserializationContext → Result (ErrPacket × DeserializationContext)
deserialize_err_packet ctx = do
  ((code, (marker, (state, (message, _)))), rest) ← deserialize err_packet_fields ctx
  ok (
    record {
      error_code = code;
      sql_state_marker = marker;
      sql_state = state;
      error_message = message;
    },
    rest,
  )

pub record ColumnDefinitionPacket : Type 0 where
  pub catalog : List ℕ
  pub schema : List ℕ
  pub table : List ℕ
  pub org_table : List ℕ
  pub name : List ℕ
  pub org_name : List ℕ
  pub character_set : ℕ
  pub column_length : ℕ
  pub type : ℕ
  pub flags : ℕ
  pub decimals : ℕ

-- With the length of the fixed fields and the padding, which are read and not kept. The enums
-- `collation` and `protocol_field_type` have two bytes and one.
abbrev pub column_definition_fields : List FieldType
column_definition_fields =
    string_lenenc
    ∷ string_lenenc
    ∷ string_lenenc
    ∷ string_lenenc
    ∷ string_lenenc
    ∷ string_lenenc
    ∷ int_lenenc
    ∷ enumeration int2
    ∷ fixed_int int4
    ∷ enumeration int1
    ∷ fixed_int int2
    ∷ fixed_int int1
    ∷ fixed_int int2
    ∷ []

abbrev pub column_definition_of : Values column_definition_fields → ColumnDefinitionPacket
column_definition_of
      (
        cat,
        (sch, (tab, (otab, (nam, (onam, (fixed, (set, (len, (ty, (fl, (dec, (pad, _)))))))))))),
      ) =
    record {
      catalog = cat;
      schema = sch;
      table = tab;
      org_table = otab;
      name = nam;
      org_name = onam;
      character_set = set;
      column_length = len;
      type = ty;
      flags = fl;
      decimals = dec;
    }

unfoldable pub deserialize_column_definition_packet :
    DeserializationContext → Result (ColumnDefinitionPacket × DeserializationContext)
deserialize_column_definition_packet ctx = do
  (values, rest) ← deserialize column_definition_fields ctx
  ok (column_definition_of values, rest)

-- The messages that are one string up to the end of the packet, after the command's id: a query,
-- and the statement to be prepared.
abbrev pub string_command_traits : (command_id : ℕ) → SerializationTraits (List ℕ)
string_command_traits id = record {
  get_size_ = λ caps input. get_size_struct (some id) (string_eof ∷ []) (input, tt);
  serialize_ = λ caps input. serialize_struct (some id) (string_eof ∷ []) (input, tt);
}

abbrev pub com_query_packet : SerializationTraits (List ℕ)
com_query_packet = string_command_traits 3

-- The packet has no members.
abbrev pub quit_packet : SerializationTraits (Unit {0})
quit_packet = record {
  get_size_ = λ caps input. get_size_struct (some 1) [] tt;
  serialize_ = λ caps input. serialize_struct (some 1) [] tt;
}

-- The code that `process_error_packet` returns, and the message that it stores in `info`.
unfoldable pub process_error_packet : DeserializationContext → ErrorInfo → ErrorCode × ErrorInfo
process_error_packet ctx info = elim (deserialize_message deserialize_err_packet ctx) [
  | ok packet ↦ (make_error_code packet.error_code, packet.error_message)
  | err code ↦ (code, info)
]
