-- ===== src/Messages/Handshake/Tests.antt =====
-- Runs of the connection phase's packets.
use mysql_asio.Base.{ℕ, ◌≡◌, ◌≤◌, ◌++◌, List, [], ◌∷◌, arith, refl, length, replicate}
use mysql_asio.Base.Bytes.{from_le}
use mysql_asio.Base.Error.{ok}
use mysql_asio.Capabilities.{has, client_connect_with_db}
use mysql_asio.Serialization.{
  deserialize, deserialize_field, deserialize_string_null, deserialize_string_fixed,
  deserialize_fixed_int,
}
use mysql_asio.Messages.Handshake.{
  HandshakeResponsePacket, serialize_handshake_response, HandshakePacket, auth_buffer_size,
  deserialize_handshake_packet,
}
use mysql_asio.Messages.Handshake.Greeting.{greeting_data_fits}
use mysql_asio.Messages.Handshake.Laws.{
  IsSendable, wire_fields, wire_values, handshake_response_back,
}

-- A response with a user, a password's hash and a database.
abbrev response : HandshakeResponsePacket
response = record {
  client_flag = 8;
  max_packet_size = 0xffffff;
  character_set = 33;
  username = 117 ∷ 115 ∷ [];
  auth_response = 1 ∷ 0 ∷ 3 ∷ [];
  database = 100 ∷ 98 ∷ [];
  client_plugin_name = 112 ∷ [];
}

response-IsSendable : IsSendable response
response-IsSendable = record {
  flag_fits = omega arith;
  size_fits = omega arith;
  set_fits = omega arith;
  username_ends = (omega arith, (omega arith, tt));
  response_fits = omega arith;
  database_ends = (omega arith, (omega arith, tt));
  plugin_ends = (omega arith, tt);
}

handshake_response_back_example :
    deserialize
      (wire_fields (has 8 client_connect_with_db))
      (serialize_handshake_response 8 response)
    ≡ ok (wire_values (has 8 client_connect_with_db) response, [])
handshake_response_back_example = handshake_response_back 8 response response-IsSendable

-- A greeting with 20 bytes of authentication data and a terminator.
abbrev greeting : List ℕ
greeting =
    (53 ∷ 0 ∷ 7 ∷ 0 ∷ 0 ∷ 0 ∷ [])
    ++ ((1 ∷ 2 ∷ 3 ∷ 4 ∷ 5 ∷ 6 ∷ 7 ∷ 8 ∷ 0 ∷ 0 ∷ 2 ∷ 33 ∷ 2 ∷ 0 ∷ 8 ∷ 0 ∷ 21 ∷ [])
        ++ (replicate 10 0
            ++ ((11 ∷ 12 ∷ 13 ∷ 14 ∷ 15 ∷ 16 ∷ 17 ∷ 18 ∷ 19 ∷ 20 ∷ 21 ∷ 22 ∷ 0 ∷ [])
                ++ (112 ∷ 0 ∷ []))))

abbrev greeting_packet : HandshakePacket
greeting_packet = record {
  server_version = 53 ∷ [];
  connection_id = 7;
  auth_plugin_data =
      (1 ∷ 2 ∷ 3 ∷ 4 ∷ 5 ∷ 6 ∷ 7 ∷ 8 ∷ [])
      ++ (11 ∷ 12 ∷ 13 ∷ 14 ∷ 15 ∷ 16 ∷ 17 ∷ 18 ∷ 19 ∷ 20 ∷ 21 ∷ 22 ∷ []);
  capability_flags = 524800;
  character_set = 33;
  status_flags = 2;
  auth_plugin_name = 112 ∷ [];
}

greeting_read : deserialize_handshake_packet greeting ≡ ok (greeting_packet, [])
unfolding deserialize_handshake_packet deserialize deserialize_field deserialize_string_null
    deserialize_string_fixed deserialize_fixed_int has from_le
greeting_read = refl

greeting_data_fits_example : length greeting_packet.auth_plugin_data ≤ auth_buffer_size
greeting_data_fits_example = greeting_data_fits greeting greeting_packet [] greeting_read
