-- ===== src/Messages/Handshake/Laws.antt =====
-- What the handshake response puts on the wire.
use mysql_asio.Base.{
  replicate, ◌<◌, ◌^◌, ◌≡◌, ◌≢◌, refl, Bool, true, false, List, [], ◌∷◌, ◌++◌, length, append-nil,
  All, arith,
}
use mysql_asio.Base.Error.{ok}
use mysql_asio.Capabilities.{Capabilities, has, client_connect_with_db}
use mysql_asio.Serialization.{
  FieldType, fixed_int, int1, int4, string_fixed, string_lenenc, string_null, Values, get_int_size,
  deserialize, serialize, get_size,
}
use mysql_asio.Serialization.Length.{length-serialize}
use mysql_asio.Serialization.Append.{append_values, serialize-append}
use mysql_asio.Serialization.Message.{SerializationTraits}
use mysql_asio.Serialization.RoundTrip.{deserialize-serialize}
use mysql_asio.Messages.Handshake.{
  HandshakeResponsePacket, response_head, response_head_values, serialize_handshake_response,
  get_size_handshake_response,
}

-- The protocol's layout of the packet, with a database (`true`) and without, as its documentation has
-- it: the flags, the greatest size of a packet, the character set, 23 zeros, the user's name, the
-- authentication's response, and the names of the database and of the plugin.
abbrev pub wire_fields : Bool → List FieldType
wire_fields true =
    fixed_int int4
    ∷ fixed_int int4
    ∷ fixed_int int1
    ∷ string_fixed 23
    ∷ string_null
    ∷ string_lenenc
    ∷ string_null
    ∷ string_null
    ∷ []
wire_fields false =
    fixed_int int4
    ∷ fixed_int int4
    ∷ fixed_int int1
    ∷ string_fixed 23
    ∷ string_null
    ∷ string_lenenc
    ∷ string_null
    ∷ []

abbrev pub wire_values : (with_db : Bool) → HandshakeResponsePacket → Values (wire_fields with_db)
wire_values true r = (
  r.client_flag,
  (
    r.max_packet_size,
    (
      r.character_set,
      (replicate 23 0, (r.username, (r.auth_response, (r.database, (r.client_plugin_name, tt))))),
    ),
  ),
)
wire_values false r = (
  r.client_flag,
  (
    r.max_packet_size,
    (
      r.character_set,
      (replicate 23 0, (r.username, (r.auth_response, (r.client_plugin_name, tt)))),
    ),
  ),
)

-- The fields as the writer puts them together.
abbrev pub response_tail : Bool → List FieldType
response_tail true = string_null ∷ string_null ∷ []
response_tail false = string_null ∷ []

abbrev pub response_tail_values :
    (with_db : Bool) → HandshakeResponsePacket → Values (response_tail with_db)
response_tail_values true r = (r.database, (r.client_plugin_name, tt))
response_tail_values false r = (r.client_plugin_name, tt)

abbrev pub response_fields : Bool → List FieldType
response_fields with_db = response_head ++ response_tail with_db

abbrev pub response_values :
    (with_db : Bool) → HandshakeResponsePacket → Values (response_fields with_db)
response_values with_db r =
    append_values response_head (response_tail with_db) (response_head_values r)
      (response_tail_values with_db r)

response_eq :
    (caps : Capabilities) (r : HandshakeResponsePacket) (with_db : Bool)
    → has caps client_connect_with_db ≡ with_db
    → serialize_handshake_response caps r
      ≡ serialize (response_fields with_db) (response_values with_db r)
unfolding serialize_handshake_response
response_eq caps r true e =
    rw
      (
        e,
        serialize-append (string_null ∷ []) (string_null ∷ []) (r.database, tt)
            (r.client_plugin_name, tt),
      )
      (serialize-append response_head (response_tail true) (response_head_values r)
        (response_tail_values true r))
response_eq caps r false e = rw e (
    serialize-append response_head (response_tail false) (response_head_values r)
      (response_tail_values false r))

size_eq :
    (caps : Capabilities) (r : HandshakeResponsePacket) (with_db : Bool)
    → has caps client_connect_with_db ≡ with_db
    → get_size_handshake_response caps r
      ≡ get_size (response_fields with_db) (response_values with_db r)
unfolding get_size_handshake_response get_size
size_eq caps r true e = rw e (omega arith)
size_eq caps r false e = rw e (omega arith)

-- Whatever the capabilities, the bytes of a handshake response are as many as its `get_size_` says.
pub length-serialize_handshake_response :
    (caps : Capabilities) (r : HandshakeResponsePacket)
    → length (serialize_handshake_response caps r) ≡ get_size_handshake_response caps r
length-serialize_handshake_response caps r = go (has caps client_connect_with_db) refl
  where
    go :
        (b : Bool)
        → has caps client_connect_with_db ≡ b
        → length (serialize_handshake_response caps r) ≡ get_size_handshake_response caps r
    go true e =
        rw (response_eq caps r true e, size_eq caps r true e)
          (length-serialize (response_fields true) (response_values true r)
            (tt, (tt, (tt, (refl, (tt, (tt, (tt, (tt, tt)))))))))
    go false e =
        rw (response_eq caps r false e, size_eq caps r false e)
          (length-serialize (response_fields false) (response_values false r)
            (tt, (tt, (tt, (refl, (tt, (tt, (tt, tt))))))))

abbrev pub handshake_response_traits : SerializationTraits HandshakeResponsePacket
handshake_response_traits = record {
  get_size_ = get_size_handshake_response;
  serialize_ = serialize_handshake_response;
}

-- The members are in range, and no text holds a terminator.
pub record IsSendable (r : HandshakeResponsePacket) : Type 0 where
  pub flag_fits : r.client_flag < 256 ^ 4
  pub size_fits : r.max_packet_size < 256 ^ 4
  pub set_fits : r.character_set < 256
  pub username_ends : All (λ b. b ≢ 0) r.username
  pub response_fits : length r.auth_response < 2 ^ 64
  pub database_ends : All (λ b. b ≢ 0) r.database
  pub plugin_ends : All (λ b. b ≢ 0) r.client_plugin_name

-- A server that reads a sent handshake response by the protocol's layout gets each member back and
-- has no byte left: the layout has the database's name just if `client_connect_with_db` was
-- negotiated, and 23 zeros after the character set.
pub handshake_response_back :
    (caps : Capabilities) (r : HandshakeResponsePacket)
    → IsSendable r
    → deserialize
        (wire_fields (has caps client_connect_with_db))
        (serialize_handshake_response caps r)
      ≡ ok (wire_values (has caps client_connect_with_db) r, [])
unfolding get_int_size
handshake_response_back caps r s = go (has caps client_connect_with_db) refl
  where
    open s use {
      flag_fits, size_fits, set_fits, username_ends, response_fits, database_ends, plugin_ends,
    }

    go :
        (b : Bool)
        → has caps client_connect_with_db ≡ b
        → deserialize (wire_fields b) (serialize_handshake_response caps r)
          ≡ ok (wire_values b r, [])
    go true e =
        rw (append-nil, ← response_eq caps r true e) at
          (deserialize-serialize (wire_fields true) (wire_values true r) []
            (
              flag_fits,
              (
                size_fits,
                (
                  set_fits,
                  (refl, (username_ends, (response_fits, (database_ends, (plugin_ends, tt))))),
                ),
              ),
            )
            (tt, (tt, (tt, (tt, (tt, (tt, (tt, (tt, tt)))))))))
    go false e =
        rw (append-nil, ← response_eq caps r false e) at
          (deserialize-serialize (wire_fields false) (wire_values false r) []
            (
              flag_fits,
              (size_fits, (set_fits, (refl, (username_ends, (response_fits, (plugin_ends, tt)))))),
            )
            (tt, (tt, (tt, (tt, (tt, (tt, (tt, tt))))))))
