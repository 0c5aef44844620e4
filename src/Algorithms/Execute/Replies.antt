-- ===== src/Algorithms/Execute/Replies.antt =====
-- What execute_generic makes of each of a server's replies.
use mysql_asio.Base.{
  ℕ, ◌<◌, ◌^◌, ◌≡◌, ◌≢◌, refl, ◌∙◌, true, false, List, [], ◌∷◌, ◌++◌, none, some, length, All, ≢→==,
  append-nil, append_assoc,
}
use mysql_asio.Base.Error.{ok, ErrorInfo, success, make_error_code}
use mysql_asio.Serialization.{serialize_int_lenenc}
use mysql_asio.Serialization.Message.{SerializationTraits, deserialize_message-ok}
use mysql_asio.Messages.Common.{
  OkPacket, empty_ok_packet, deserialize_ok_packet, ErrPacket, deserialize_err_packet,
  deserialize_column_definition_packet,
}
use mysql_asio.Metadata.{FieldMetadata}
use mysql_asio.Resultset.{DeserializeRowFn}
use mysql_asio.Algorithms.{MessageLayer}
use mysql_asio.Algorithms.Dialogue.{Turn, client, server, Follows}
use mysql_asio.Algorithms.Execute.{
  ExecuteProcessor, new_processor, process_field_definition, no_deserializer, create_resultset,
  Executed, read_fields, execute_generic,
}
use mysql_asio.Algorithms.Execute.Responses.{response_completed, response_refused, response_columns}

-- An OK packet, an error packet, or the definitions of the columns, each with its bytes: those of the
-- packets are the ones behind the message type.
pub data Reply : Type 0 where
  completed : OkPacket → List ℕ → Reply
  refused : ErrPacket → List ℕ → Reply
  columns : List (List ℕ × FieldMetadata) → Reply

abbrev pub definition_turns : List (List ℕ × FieldMetadata) → List Turn
definition_turns [] = []
definition_turns ((bytes, field) ∷ cs) = server bytes ∷ definition_turns cs

abbrev pub turns_of : Reply → List Turn
turns_of (completed packet body) = server (0x00 ∷ body) ∷ []
turns_of (refused packet body) = server (0xff ∷ body) ∷ []
turns_of (columns cs) = server (serialize_int_lenenc (length cs)) ∷ definition_turns cs

abbrev pub IsDefinition : List ℕ × FieldMetadata → Type 0
IsDefinition (bytes, field) = deserialize_column_definition_packet bytes ≡ ok (field, [])

abbrev pub IsReply : Reply → Type 0
IsReply (completed packet body) = deserialize_ok_packet empty_ok_packet body ≡ ok (packet, [])
IsReply (refused packet body) =
    (deserialize_err_packet body ≡ ok (packet, [])) × (packet.error_code ≢ 0)
IsReply (columns cs) = (length cs ≢ 0) × (length cs < 2 ^ 64) × All IsDefinition cs

abbrev pub field_of : List (List ℕ × FieldMetadata) → List FieldMetadata
field_of [] = []
field_of ((bytes, field) ∷ cs) = field ∷ field_of cs

-- What the caller is to find.
abbrev pub outcome : {C : Type 0} → DeserializeRowFn → ErrorInfo → Reply → C → Executed C
outcome deserializer info (completed packet body) c = record {
  code = success;
  info = info;
  output = some (record {
    deserializer = no_deserializer;
    meta = [];
    ok_packet = packet;
    eof_received = true;
    info_held = true;
  });
  channel = c;
}
outcome deserializer info (refused packet body) c = record {
  code = make_error_code packet.error_code;
  info = packet.error_message;
  output = none;
  channel = c;
}
outcome deserializer info (columns cs) c = record {
  code = success;
  info = info;
  output = some (record {
    deserializer = deserializer;
    meta = field_of cs;
    ok_packet = empty_ok_packet;
    eof_received = false;
    info_held = true;
  });
  channel = c;
}

-- The processor behind the definitions.
abbrev pub with_fields : ExecuteProcessor → List (List ℕ × FieldMetadata) → ExecuteProcessor
with_fields p [] = p
with_fields p ((bytes, field) ∷ cs) =
    with_fields
      (record p {
        buffer = [];
        fields = p.fields ++ (field ∷ []);
        field_buffers = p.field_buffers ++ (bytes ∷ []);
      })
      cs

definition_processed :
    (p : ExecuteProcessor) (bytes : List ℕ) (field : FieldMetadata)
    → IsDefinition (bytes, field)
    → process_field_definition (record p { buffer = bytes }) ≡ (
      success,
      record p {
        buffer = [];
        fields = p.fields ++ (field ∷ []);
        field_buffers = p.field_buffers ++ (bytes ∷ []);
      },
    )
unfolding process_field_definition
definition_processed p bytes field h =
    rw (deserialize_message-ok deserialize_column_definition_packet bytes field h) refl

create_resultset-with_fields :
    (p : ExecuteProcessor) (cs : List (List ℕ × FieldMetadata))
    → p.field_count ≢ 0
    → create_resultset (with_fields p cs) ≡ record {
      deserializer = p.deserializer;
      meta = p.fields ++ field_of cs;
      ok_packet = empty_ok_packet;
      eof_received = false;
      info_held = true;
    }
unfolding create_resultset
create_resultset-with_fields p [] h =
    rw (create_resultset, ≢→== p.field_count 0 h, append-nil p.fields) refl
create_resultset-with_fields p ((bytes, field) ∷ cs) h =
    create_resultset-with_fields
      (record p {
        buffer = [];
        fields = p.fields ++ (field ∷ []);
        field_buffers = p.field_buffers ++ (bytes ∷ []);
      })
      cs h
    ∙ rw (append_assoc p.fields (field ∷ []) (field_of cs)) refl

module _ {C : Type 0} (layer : MessageLayer C) where
  Follows-definitions :
      (cs : List (List ℕ × FieldMetadata)) (p : ExecuteProcessor) (info : ErrorInfo) (c : C)
      (rest : List Turn)
      → All IsDefinition cs
      → Follows layer c (definition_turns cs ++ rest)
      → (c' : C) × (read_fields layer (length cs) p info c
          ≡ read_fields layer 0 (with_fields p cs) info c')
        × Follows layer c' rest
  unfolding read_fields
  Follows-definitions [] p info c rest h follows = (c, refl, follows)
  Follows-definitions ((bytes, field) ∷ cs) p info c rest (h, hs) (c', step, follows) =
      let (last, e, f) =
        Follows-definitions cs
          (record p {
            buffer = [];
            fields = p.fields ++ (field ∷ []);
            field_buffers = p.field_buffers ++ (bytes ∷ []);
          })
          info c' rest hs follows in
      (last, rw (step, definition_processed p bytes field h) e, f)

module _ {C : Type 0} (layer : MessageLayer C) where
  -- From a channel in its initial state, whose next steps are to take the request and to deliver a
  -- reply of the server: `execute_generic` gives a resultset that is complete with the server's OK
  -- packet, or the server's error and message, or a resultset with all of the columns' definitions,
  -- in order, whose rows are to come. It has read all of the reply and nothing behind it.
  pub execute_generic-IsReply :
      {T : Type 0} (deserializer : DeserializeRowFn) (traits : SerializationTraits T) (request : T)
      (info : ErrorInfo) (c : C) (reply : Reply) (rest : List Turn)
      → IsReply reply
      → Follows layer (layer.reset_sequence_number c) (
          client (traits.serialize_ (layer.current_capabilities c) request)
          ∷ (turns_of reply ++ rest))
      → (c' : C) × (execute_generic layer deserializer traits request info c
          ≡ some (outcome deserializer info reply c'))
        × Follows layer c' rest
  unfolding execute_generic read_fields create_resultset
  execute_generic-IsReply deserializer traits request info c (completed packet body) rest h
        (c1, sent, (c2, received, follows)) =
      (
        c2,
        rw (sent, received, response_completed (new_processor deserializer) info packet body h)
            refl,
        follows,
      )
  execute_generic-IsReply deserializer traits request info c (refused packet body) rest (h, error)
        (c1, sent, (c2, received, follows)) =
      (
        c2,
        rw
            (
              sent,
              received,
              response_refused (new_processor deserializer) info packet body h,
              ≢→== packet.error_code 0 error,
            )
            refl,
        follows,
      )
  execute_generic-IsReply deserializer traits request info c (columns cs) rest (nonzero, small, hs)
        (c1, sent, (c2, received, follows)) =
      let p = record (new_processor deserializer) {
        buffer = serialize_int_lenenc (length cs);
        field_count = length cs;
      } in
      let (last, e, f) = Follows-definitions layer cs p info c2 rest hs follows in
      (
        last,
        rw
            (
              sent,
              received,
              response_columns (new_processor deserializer) info (length cs) nonzero small,
              e,
              create_resultset-with_fields p cs nonzero,
            )
            refl,
        f,
      )
