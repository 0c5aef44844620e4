-- ===== src/Messages/Handshake/Greeting.antt =====
-- The server's greeting.
use mysql_asio.Base.{
  ℕ, ◌+◌, ◌-◌, ◌≤◌, ◌≡◌, sym, ap, not, Bool-cases, inl, inr, List, [], ◌∷◌, ◌++◌, length,
  length-append, length-take, take, arith, if◌then◌else◌,
}
use mysql_asio.Base.Bytes.{from_le}
use mysql_asio.Base.Error.{
  Result, ok, err, ◌>>=◌, >>=-eq-ok, make_error_code, server_unsupported, incomplete_message,
}
use mysql_asio.Capabilities.{has, client_plugin_auth}
use mysql_asio.Serialization.{
  DeserializationContext, string_null, enough_size, advance, deserialize,
}
use mysql_asio.Serialization.Sizes.{ok_injective, deserialize-AllHaveShape}
use mysql_asio.Messages.Handshake.{
  HandshakePacket, greeting_fields, auth_length_fields, auth2_length, auth_buffer_size,
  deserialize_handshake_packet,
}

-- What is read behind the first fields, and behind the length.
abbrev greeting_end :
    List ℕ
    → ℕ
    → ℕ
    → ℕ
    → ℕ
    → List ℕ
    → ℕ
    → DeserializationContext
    → Result (HandshakePacket × DeserializationContext)
greeting_end version conn caps charset status part_1 len rest2 =
    if not (enough_size rest2 (auth2_length len))
    then err (make_error_code incomplete_message)
    else (do
      ((plugin, _), rest3) ← deserialize (string_null ∷ []) (advance rest2 (auth2_length len))
      ok (
        record {
          server_version = version;
          connection_id = conn;
          auth_plugin_data = part_1 ++ take (auth2_length len - 1) rest2;
          capability_flags = caps;
          character_set = charset;
          status_flags = status;
          auth_plugin_name = plugin;
        },
        rest3,
      ))

abbrev greeting_tail :
    List ℕ
    → ℕ
    → ℕ
    → ℕ
    → ℕ
    → List ℕ
    → DeserializationContext
    → Result (HandshakePacket × DeserializationContext)
greeting_tail version conn caps charset status part_1 rest =
    if not (has caps client_plugin_auth) then err (make_error_code server_unsupported) else (do
      ((len, _), rest2) ← deserialize auth_length_fields rest
      greeting_end version conn caps charset status part_1 len rest2)

end_data :
    (version : List ℕ) (conn caps charset status : ℕ) (part_1 : List ℕ) (len : ℕ)
    (rest2 : DeserializationContext) (p : HandshakePacket) (rest : DeserializationContext)
    → greeting_end version conn caps charset status part_1 len rest2 ≡ ok (p, rest)
    → p.auth_plugin_data ≡ part_1 ++ take (auth2_length len - 1) rest2
end_data version conn caps charset status part_1 len rest2 p rest h =
    elim (Bool-cases (enough_size rest2 (auth2_length len))) [
      | inl e ↦
          let h' = rw e at h in
          let (out, e1, e2) =
            >>=-eq-ok (deserialize (string_null ∷ []) (advance rest2 (auth2_length len))) _ h' in
          sym (ap (λ q. q.0.auth_plugin_data) (ok_injective _ (p, rest) e2))
      | inr e ↦ let h' = rw e at h in cc
    ]

-- The second part has 254 bytes at most.
end_length :
    (version : List ℕ) (conn caps charset status : ℕ) (part_1 : List ℕ) (len : ℕ)
    (rest2 : DeserializationContext) (p : HandshakePacket) (rest : DeserializationContext)
    → greeting_end version conn caps charset status part_1 len rest2 ≡ ok (p, rest)
    → length p.auth_plugin_data ≤ length part_1 + 254
unfolding auth2_length
end_length version conn caps charset status part_1 len rest2 p rest h =
    let e = ap length (end_data version conn caps charset status part_1 len rest2 p rest h) in
    omega (
      arith,
      e,
      length-append part_1 (take (auth2_length len - 1) rest2),
      length-take (auth2_length len - 1) rest2,
    )

tail_length :
    (version : List ℕ) (conn caps charset status : ℕ) (part_1 : List ℕ)
    (rest1 : DeserializationContext) (p : HandshakePacket) (rest : DeserializationContext)
    → greeting_tail version conn caps charset status part_1 rest1 ≡ ok (p, rest)
    → length p.auth_plugin_data ≤ length part_1 + 254
tail_length version conn caps charset status part_1 rest1 p rest h =
    elim (Bool-cases (has caps client_plugin_auth)) [
      | inl e ↦
          let h' = rw e at h in
          let (out, e1, e2) = >>=-eq-ok (deserialize auth_length_fields rest1) _ h' in
          end_length version conn caps charset status part_1 out.0.0 out.1 p rest e2
      | inr e ↦ let h' = rw e at h in cc
    ]

-- Whatever the server sends, a greeting that is read has authentication data that fits into its
-- buffer of fixed capacity.
pub greeting_data_fits :
    (ctx : DeserializationContext) (p : HandshakePacket) (rest : DeserializationContext)
    → deserialize_handshake_packet ctx ≡ ok (p, rest)
    → length p.auth_plugin_data ≤ auth_buffer_size
unfolding deserialize_handshake_packet
greeting_data_fits ctx p rest h =
    let (out, e1, e2) = >>=-eq-ok (deserialize greeting_fields ctx) _ h in
    let shape = deserialize-AllHaveShape greeting_fields ctx out.0 out.1 e1 in
    let bound =
      tail_length out.0.0 out.0.1.0 (from_le (out.0.1.1.1.1.0 ++ out.0.1.1.1.1.1.1.1.0))
        out.0.1.1.1.1.1.0 out.0.1.1.1.1.1.1.0 out.0.1.1.0 out.1 p rest e2 in
    omega (arith, bound, shape.1.1.0)
