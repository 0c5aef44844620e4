-- ===== src/Messages/Statement/Server.antt =====
-- A server that reads an execute message by the protocol's layout, written out apart from the client's
-- field lists, for a statement of which it knows the number of parameters. It reads a value by the
-- type and the flag that were sent, as the library's own reader of binary values does.
use mysql_asio.Base.{
  ◌+◌, ◌/◌, ◌≤◌, Option, some, none, length, ℕ, zero, suc, ◌<◌, ◌^◌, ◌≡◌, Bool, false, List, [],
  ◌∷◌, ◌==◌, if◌then◌else◌, All,
}
use mysql_asio.Base.Error.{Result, ok, err, make_error_code, protocol_value_error, ◌>>=◌}
use mysql_asio.Serialization.{
  FieldType, fixed_int, int1, int4, DeserializationContext, deserialize, copy,
}
use mysql_asio.Metadata.{
  ProtocolFieldType, float_, double_, null, longlong, date, time, datetime, varchar,
}
use mysql_asio.NullBitmap.Layout.{bit_at}
use mysql_asio.Values.{Variant, nullptr, is_nullptr, Calendar}
use mysql_asio.Values.Binary.{deserialize_by_type}
use mysql_asio.Values.Binary.Sending.{get_protocol_field_type, is_unsigned_value}
use mysql_asio.Values.Binary.RoundTrip.{IsSendable}
use mysql_asio.Messages.Statement.{ComStmtExecutePacket}

-- The protocol's numbers of the types that a parameter can have.
abbrev pub wire_type : ℕ → Option ProtocolFieldType
wire_type b =
    if b == 4
    then some float_
    else if b == 5
    then some double_
    else if b == 6
    then some null
    else if b == 8
    then some longlong
    else if b == 10
    then some date
    else if b == 11
    then some time
    else if b == 12
    then some datetime
    else if b == 15
    then some varchar
    else none

-- The command's id, the statement, the flags and the number of iterations; and the two bytes that a
-- parameter has for its type and its flag.
abbrev pub head_layout : List FieldType
head_layout = fixed_int int1 ∷ fixed_int int4 ∷ fixed_int int1 ∷ fixed_int int4 ∷ []

abbrev pub byte_layout : List FieldType
byte_layout = fixed_int int1 ∷ []

abbrev pub meta_layout : List FieldType
meta_layout = fixed_int int1 ∷ fixed_int int1 ∷ []

abbrev pub known_type : Option ProtocolFieldType → Result ProtocolFieldType
known_type none = err (make_error_code protocol_value_error)
known_type (some type) = ok type

-- The type and the unsigned flag of each parameter.
abbrev pub read_metas :
    ℕ → DeserializationContext → Result (List (ProtocolFieldType × Bool) × DeserializationContext)
read_metas zero ctx = ok ([], ctx)
read_metas (suc n) ctx = do
  ((number, (flag, _)), rest) ← deserialize meta_layout ctx
  type ← known_type (wire_type number)
  (metas, behind) ← read_metas n rest
  ok ((type, flag == 0x80) ∷ metas, behind)

-- A parameter that the bitmap calls NULL has no bytes.
abbrev pub read_values :
    Calendar
    → List ℕ
    → ℕ
    → List (ProtocolFieldType × Bool)
    → DeserializationContext
    → Result (List Variant × DeserializationContext)
read_values cal bitmap i [] ctx = ok ([], ctx)
read_values cal bitmap i ((type, unsigned) ∷ metas) ctx = do
  (value, rest) ←
      if bit_at bitmap i then ok (nullptr, ctx) else deserialize_by_type cal type unsigned ctx
  (values, behind) ← read_values cal bitmap (suc i) metas rest
  ok (value ∷ values, behind)

-- The command's id, and the message.
abbrev pub read_execute :
    Calendar
    → ℕ
    → DeserializationContext
    → Result ((ℕ × ComStmtExecutePacket) × DeserializationContext)
read_execute cal num_params ctx = do
  ((command, (id, (fl, (iter, _)))), rest) ← deserialize head_layout ctx
  (bitmap, rest2) ← copy ((num_params + 7) / 8) rest
  ((bind, _), rest3) ← deserialize byte_layout rest2
  (metas, rest4) ← read_metas num_params rest3
  (values, rest5) ← read_values cal bitmap 0 metas rest4
  ok (
    (
      command,
      record {
        statement_id = id;
        flags = fl;
        iteration_count = iter;
        new_params_bind_flag = bind;
        params = values;
      },
    ),
    rest5,
  )

-- What is sent as the metadata of the parameters.
abbrev pub metas_of : List Variant → List (ProtocolFieldType × Bool)
metas_of [] = []
metas_of (v ∷ vs) = (get_protocol_field_type v, is_unsigned_value v) ∷ metas_of vs

-- NULL, or a value that can be sent.
abbrev pub IsParam : Calendar → Variant → Type 0
IsParam cal v = (is_nullptr v ≡ false) → IsSendable cal v

-- The numbers are in range, there are no more than the 255 parameters that the assertion of `serialize_`
-- allows, and each is NULL or can be sent.
pub record IsSendableExecute (cal : Calendar) (p : ComStmtExecutePacket) : Type 0 where
  pub id_fits : p.statement_id < 256 ^ 4
  pub flags_fit : p.flags < 256
  pub count_fits : p.iteration_count < 256 ^ 4
  pub bind_fits : p.new_params_bind_flag < 256
  pub params_allowed : length p.params ≤ 255
  pub params_fit : All (IsParam cal) p.params
