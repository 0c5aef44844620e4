-- ===== src/Messages/Handshake.antt =====
-- handshake_messages.hpp and impl/handshake_messages.ipp: the packets of the connection phase.
-- The assertions on the server's data (`auth_data.back() == 0`) are taken as switched off.
pub mod Laws
pub mod Greeting
pub mod Tests
use mysql_asio.Base.{
  ℕ, ◌+◌, ◌-◌, ◌%◌, max, Bool, not, List, [], ◌∷◌, ◌++◌, none, if◌then◌else◌, length, take,
  replicate, length-append, length-replicate, arith, ◌≡◌, refl,
}
use mysql_asio.Base.Bytes.{from_le}
use mysql_asio.Base.Error.{
  Result, ok, err, ◌>>=◌, make_error_code, server_unsupported, incomplete_message,
}
use mysql_asio.Capabilities.{Capabilities, has, client_plugin_auth, client_connect_with_db}
use mysql_asio.Serialization.{
  FieldType, fixed_int, string_null, string_eof, string_lenenc, string_fixed, int1, int2, int4,
  DeserializationContext, Values, enough_size, advance, deserialize, serialize, get_size,
}
use mysql_asio.Serialization.Length.{length-serialize}
use mysql_asio.Serialization.Message.{
  SerializationTraits, serialize_struct, get_size_struct, length-serialize_struct,
}

pub record HandshakePacket : Type 0 where
  pub server_version : List ℕ
  pub connection_id : ℕ
  pub auth_plugin_data : List ℕ
  pub capability_flags : ℕ
  pub character_set : ℕ
  pub status_flags : ℕ
  pub auth_plugin_name : List ℕ

-- The fields up to the second half of the capabilities, and the next two.
abbrev pub greeting_fields : List FieldType
greeting_fields =
    string_null
    ∷ fixed_int int4
    ∷ string_fixed 8
    ∷ fixed_int int1
    ∷ string_fixed 2
    ∷ fixed_int int1
    ∷ fixed_int int2
    ∷ string_fixed 2
    ∷ []

abbrev pub auth_length_fields : List FieldType
auth_length_fields = fixed_int int1 ∷ string_fixed 10 ∷ []

-- `static_cast<std::uint8_t>(std::max(13, auth_plugin_data_len.value - auth1_length))`: below 8
-- the difference is negative, and the maximum 13.
unfoldable pub auth2_length : ℕ → ℕ
auth2_length len = max 13 (len - 8) % 256

-- The capacity of `auth_buffer_type`.
abbrev pub auth_buffer_size : ℕ
auth_buffer_size = 8 + 0xff

unfoldable pub deserialize_handshake_packet :
    DeserializationContext → Result (HandshakePacket × DeserializationContext)
unfolding enough_size advance auth2_length
deserialize_handshake_packet ctx = do
  ((version, (conn, (part_1, (filler, (low, (charset, (status, (high, _)))))))), rest) ←
      deserialize greeting_fields ctx
  let caps = from_le (low ++ high)
  if not (has caps client_plugin_auth) then err (make_error_code server_unsupported) else (do
    ((len, (reserved, _)), rest2) ← deserialize auth_length_fields rest
    if not (enough_size rest2 (auth2_length len))
        then err (make_error_code incomplete_message)
        else (do
          ((plugin, _), rest3) ← deserialize (string_null ∷ []) (advance rest2 (auth2_length len))
          ok (
            record {
              server_version = version;
              connection_id = conn;
              auth_plugin_data = part_1 ++ take (auth2_length len - 1) rest2;
              capability_flags = caps;
              character_set = charset;
              status_flags = status;
              auth_plugin_name = plugin;
            },
            rest3,
          )))

pub record HandshakeResponsePacket : Type 0 where
  pub client_flag : ℕ
  pub max_packet_size : ℕ
  pub character_set : ℕ
  pub username : List ℕ
  pub auth_response : List ℕ
  pub database : List ℕ
  pub client_plugin_name : List ℕ

-- `string_fixed<23>{}`
abbrev pub filler_23 : List ℕ
filler_23 = replicate 23 0

-- The fields in front of the database's name.
abbrev pub response_head : List FieldType
response_head =
    fixed_int int4
    ∷ fixed_int int4
    ∷ fixed_int int1
    ∷ string_fixed 23
    ∷ string_null
    ∷ string_lenenc
    ∷ []

abbrev pub response_head_values : HandshakeResponsePacket → Values response_head
response_head_values value = (
  value.client_flag,
  (
    value.max_packet_size,
    (value.character_set, (filler_23, (value.username, (value.auth_response, tt)))),
  ),
)

unfoldable pub serialize_handshake_response : Capabilities → HandshakeResponsePacket → List ℕ
serialize_handshake_response caps value =
    serialize response_head (response_head_values value)
    ++ ((if has caps client_connect_with_db
          then serialize (string_null ∷ []) (value.database, tt)
          else [])
        ++ serialize (string_null ∷ []) (value.client_plugin_name, tt))

unfoldable pub get_size_handshake_response : Capabilities → HandshakeResponsePacket → ℕ
get_size_handshake_response caps value =
    get_size (fixed_int int4 ∷ fixed_int int4 ∷ fixed_int int1 ∷ string_null ∷ string_lenenc ∷ []) (
      value.client_flag,
      (value.max_packet_size, (value.character_set, (value.username, (value.auth_response, tt)))),
    )
    + 23
    + (if has caps client_connect_with_db
        then get_size (string_null ∷ []) (value.database, tt)
        else 0)
    + get_size (string_null ∷ []) (value.client_plugin_name, tt)

pub record SslRequest : Type 0 where
  pub client_flag : ℕ
  pub max_packet_size : ℕ
  pub character_set : ℕ

-- The member `filler {}` is always zero.
abbrev pub ssl_request_fields : List FieldType
ssl_request_fields = fixed_int int4 ∷ fixed_int int4 ∷ fixed_int int1 ∷ string_fixed 23 ∷ []

abbrev pub ssl_request_traits : SerializationTraits SslRequest
ssl_request_traits = record {
  get_size_ = λ caps r.
      get_size_struct none ssl_request_fields
        (r.client_flag, (r.max_packet_size, (r.character_set, (filler_23, tt))));
  serialize_ = λ caps r.
      serialize_struct none ssl_request_fields
        (r.client_flag, (r.max_packet_size, (r.character_set, (filler_23, tt))));
}

pub record AuthSwitchRequestPacket : Type 0 where
  pub plugin_name : List ℕ
  pub auth_plugin_data : List ℕ

-- `substr(0, size() - 1)` of what is not empty.
abbrev pub discard_last : List ℕ → List ℕ
discard_last auth_data = take (length auth_data - 1) auth_data

unfoldable pub deserialize_auth_switch_request :
    DeserializationContext → Result (AuthSwitchRequestPacket × DeserializationContext)
deserialize_auth_switch_request ctx = do
  ((plugin, (auth_data, _)), rest) ← deserialize (string_null ∷ string_eof ∷ []) ctx
  ok (record { plugin_name = plugin; auth_plugin_data = discard_last auth_data }, rest)

-- `auth_switch_response_packet` and `auth_more_data_packet` are one string up to the end.
abbrev pub auth_switch_response_traits : SerializationTraits (List ℕ)
auth_switch_response_traits = record {
  get_size_ = λ caps input. get_size_struct none (string_eof ∷ []) (input, tt);
  serialize_ = λ caps input. serialize_struct none (string_eof ∷ []) (input, tt);
}

unfoldable pub deserialize_auth_more_data :
    DeserializationContext → Result (List ℕ × DeserializationContext)
deserialize_auth_more_data ctx = do
  ((auth_data, _), rest) ← deserialize (string_eof ∷ []) ctx
  ok (auth_data, rest)
