-- ===== src/Algorithms/Handshake/Tests.antt =====
-- Runs of the connection phase, with TLS and the plugin caching_sha2_password.
use mysql_asio.Algorithms.Connection.{connect}
use mysql_asio.Base.{ℕ, ◌≡◌, ◌++◌, List, [], ◌∷◌, none, some, arith, refl, replicate, take}
use mysql_asio.Base.Bytes.{from_le}
use mysql_asio.Base.Error.{ok, success, system}
use mysql_asio.Capabilities.{has, has_all}
use mysql_asio.Serialization.{
  deserialize, deserialize_field, deserialize_string_null, deserialize_string_fixed,
  deserialize_fixed_int,
}
use mysql_asio.Messages.Handshake.{HandshakePacket, deserialize_handshake_packet}
use mysql_asio.Auth.Digest.{Digests}
use mysql_asio.Auth.CachingSha2Password
use mysql_asio.Auth.{
  AuthCalculator, caching_sha2_password_name, caching_sha2_password_plugin, find_plugin, calculate,
}
use mysql_asio.Algorithms.Async.{Yielded, async_read}
use mysql_asio.Algorithms.Async.Handshake.{
  HandshakeOp, HandshakeOut, new_handshake_op, handshake_op, greeting_read,
}
use mysql_asio.Algorithms.Async.Handshake.Plugin.{
  Reachable, begins, goes_on, Reachable-handshake_op,
}
use mysql_asio.Algorithms.Script.{Script, scripted, script_of}
use mysql_asio.Algorithms.Dialogue.{Turn, client, server, tls, Follows}
use mysql_asio.Algorithms.Handshake.Processor.{
  HandshakeProcessor, new_handshake_processor, use_ssl, process_capabilities,
  compose_handshake_response, compose_ssl_request,
}
use mysql_asio.Algorithms.Handshake.Params.{ConnectionParams, require, get_collation_first_byte}
use mysql_asio.Algorithms.Handshake.Negotiation.{Negotiated, process_capabilities-Negotiated}
use mysql_asio.Algorithms.Handshake.Accepting.{Accepts, accepted, announces, asks}
use mysql_asio.Algorithms.Handshake.Exchange.{greeting_processed, handshake-Accepts}
use mysql_asio.Algorithms.Handshake.Recorded.{recorded, Guarded}
use mysql_asio.Algorithms.Handshake.Secured.{handshake-Guarded}
use mysql_asio.Algorithms.Handshake.{
  Handshaken, done, handshake, authenticate, set_up_tls, auth_loop,
}

abbrev pub prefixes : Digests
prefixes = record {
  sha1 = λ s. take 20 (s ++ replicate 20 0);
  sha256 = λ s. take 32 (s ++ replicate 32 0);
}

abbrev pub params : ConnectionParams
params = record {
  username = 117 ∷ [];
  password = 112 ∷ 119 ∷ [];
  database = [];
  connection_collation = 45;
  ssl = require;
}

-- A greeting with the mandatory capabilities and CLIENT_SSL.
abbrev greeting : List ℕ
greeting =
    (53 ∷ 0 ∷ 7 ∷ 0 ∷ 0 ∷ 0 ∷ [])
    ++ ((1 ∷ 2 ∷ 3 ∷ 4 ∷ 5 ∷ 6 ∷ 7 ∷ 8 ∷ 0 ∷ 0 ∷ 0x8a ∷ 33 ∷ 2 ∷ 0 ∷ 0x28 ∷ 1 ∷ 21 ∷ [])
        ++ (replicate 10 0
            ++ ((11 ∷ 12 ∷ 13 ∷ 14 ∷ 15 ∷ 16 ∷ 17 ∷ 18 ∷ 19 ∷ 20 ∷ 21 ∷ 22 ∷ 0 ∷ [])
                ++ (caching_sha2_password_name ++ (0 ∷ [])))))

abbrev greeting_packet : HandshakePacket
greeting_packet = record {
  server_version = 53 ∷ [];
  connection_id = 7;
  auth_plugin_data =
      (1 ∷ 2 ∷ 3 ∷ 4 ∷ 5 ∷ 6 ∷ 7 ∷ 8 ∷ [])
      ++ (11 ∷ 12 ∷ 13 ∷ 14 ∷ 15 ∷ 16 ∷ 17 ∷ 18 ∷ 19 ∷ 20 ∷ 21 ∷ 22 ∷ []);
  capability_flags = 0x1288a00;
  character_set = 33;
  status_flags = 2;
  auth_plugin_name = caching_sha2_password_name;
}

pub greeting_is_read : deserialize_handshake_packet greeting ≡ ok (greeting_packet, [])
unfolding deserialize_handshake_packet deserialize deserialize_field deserialize_string_null
    deserialize_string_fixed deserialize_fixed_int has from_le
greeting_is_read = refl

abbrev negotiated : HandshakeProcessor
negotiated = record (new_handshake_processor params) { negotiated_caps = 0x1288a00 }

pub capable :
    process_capabilities (new_handshake_processor params) greeting_packet ≡ (success, negotiated)
unfolding process_capabilities has_all
capable = refl

process_capabilities-Negotiated_example : Negotiated params greeting_packet negotiated
process_capabilities-Negotiated_example =
    process_capabilities-Negotiated (new_handshake_processor params) greeting_packet negotiated
      capable

abbrev first_calc : AuthCalculator
first_calc = record {
  plugin = some (caching_sha2_password_plugin prefixes);
  response =
      CachingSha2Password.compute_auth_string prefixes params.password
        greeting_packet.auth_plugin_data;
}

pub computed :
    calculate prefixes negotiated.auth_calc greeting_packet.auth_plugin_name
      negotiated.params.password greeting_packet.auth_plugin_data
      (use_ssl negotiated)
    ≡ (success, first_calc)
unfolding calculate find_plugin CachingSha2Password.compute_response
computed = refl

abbrev full_calc : AuthCalculator
full_calc = record {
  plugin = some (caching_sha2_password_plugin prefixes);
  response = 112 ∷ 119 ∷ 0 ∷ [];
}

-- The server asks for the password itself.
full_auth :
    calculate prefixes first_calc caching_sha2_password_name params.password
      (4 ∷ [])
      (use_ssl negotiated)
    ≡ (success, full_calc)
unfolding calculate find_plugin CachingSha2Password.compute_response use_ssl has
full_auth = refl

abbrev turns : List Turn
turns =
    server (0x01 ∷ 4 ∷ [])
    ∷ client full_calc.response
    ∷ server (0x01 ∷ 3 ∷ [])
    ∷ server (0x00 ∷ [])
    ∷ []

pub accepts : Accepts prefixes params.password (use_ssl negotiated) 3 first_calc turns
accepts =
    asks (4 ∷ []) caching_sha2_password_name full_calc refl refl full_auth (announces (accepted []))

abbrev pub script : Script
script =
    script_of ((10 ∷ greeting) ∷ (0x01 ∷ 4 ∷ []) ∷ (0x01 ∷ 3 ∷ []) ∷ (0x00 ∷ []) ∷ (9 ∷ []) ∷ [])

handshake-Accepts_example :
    (c : Script) × (handshake prefixes scripted 5 params [] script
      ≡ done success [] (record c { capabilities = 0x1288a00 }))
    × Follows scripted c (server (9 ∷ []) ∷ [])
unfolding use_ssl has compose_handshake_response
handshake-Accepts_example =
    handshake-Accepts prefixes scripted params [] greeting greeting_packet negotiated first_calc _ 5
      script (server (9 ∷ []) ∷ []) greeting_is_read capable computed refl accepts (omega arith)
      (
        _,
        refl,
        (_, refl, (_, refl, (_, refl, (_, refl, (_, refl, (_, refl, (_, refl, (_, refl, tt)))))))),
      )

-- A server that goes away after the handshake response.
abbrev short_script : Script
short_script = script_of ((10 ∷ greeting) ∷ [])

abbrev response : List ℕ
response = elim (compose_handshake_response (record negotiated { auth_calc = first_calc })) [
  | none ↦ []
  | some message ↦ message
]

abbrev run : Handshaken (Script × List Turn)
run = record {
  code = system 1;
  info = [];
  channel = (
    record short_script {
      incoming = [];
      outgoing = compose_ssl_request negotiated ∷ response ∷ [];
    },
    client (compose_ssl_request negotiated) ∷ tls ∷ client response ∷ [],
  );
}

run_lem : handshake prefixes (recorded scripted) 5 params [] (short_script, []) ≡ some run
unfolding handshake use_ssl has set_up_tls authenticate compose_handshake_response auth_loop
    compose_ssl_request
run_lem =
    rw
      (greeting_processed prefixes params [] greeting greeting_packet negotiated first_calc
        greeting_is_read capable computed)
      refl

handshake-Guarded_example : Guarded run.channel.1
handshake-Guarded_example =
    handshake-Guarded prefixes scripted 5 params [] short_script run refl run_lem

-- A collation with the number 255 would be announced as 0.
collation_test : get_collation_first_byte 255 ≡ 0
collation_test = refl

-- The operation when it waits for the greeting.
abbrev waiting : HandshakeOp
waiting = record (new_handshake_op params) { point = greeting_read }

waiting-Reachable : Reachable prefixes scripted params waiting
unfolding handshake_op
waiting-Reachable = goes_on success [] (script_of []) (script_of []) async_read waiting begins refl

Reachable-handshake_op_example :
    (started : Yielded HandshakeOut) × (op : HandshakeOp) × (c : Script) × (handshake_op prefixes
        scripted waiting success
        (10 ∷ greeting)
        (script_of [])
      ≡ some (started, op, c))
Reachable-handshake_op_example =
    Reachable-handshake_op prefixes scripted params waiting success (10 ∷ greeting) (script_of [])
      waiting-Reachable

-- The run that the server accepts, with what it leaves.
abbrev pub accepted_run :
    (c : Script) × (handshake prefixes scripted 5 params [] script
      ≡ done success [] (record c { capabilities = 0x1288a00 }))
    × Follows scripted c (server (9 ∷ []) ∷ [])
unfolding use_ssl has compose_handshake_response
accepted_run =
    handshake-Accepts prefixes scripted params [] greeting greeting_packet negotiated first_calc _ 5
      script (server (9 ∷ []) ∷ []) greeting_is_read capable computed refl accepts (omega arith)
      (
        _,
        refl,
        (_, refl, (_, refl, (_, refl, (_, refl, (_, refl, (_, refl, (_, refl, (_, refl, tt)))))))),
      )

abbrev pub accepted_channel : Handshaken Script
accepted_channel = record {
  code = success;
  info = [];
  channel = record (accepted_run.0) { capabilities = 0x1288a00 };
}

pub connected :
    connect scripted prefixes (λ c. (success, c)) 5 params [] script ≡ some accepted_channel
unfolding connect
connected = rw (accepted_run.1) refl
