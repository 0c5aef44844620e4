-- ===== src/Capabilities.antt =====
-- include/boost/mysql/detail/protocol/capabilities.hpp: the flags of client and server, in a 32-bit
-- number.
use mysql_asio.Base.{ℕ, ◌^◌, Bool, not, ◌==◌, bit_and, bit_or}

abbrev pub client_connect_with_db : ℕ
client_connect_with_db = 8

abbrev pub client_protocol_41 : ℕ
client_protocol_41 = 512

abbrev pub client_ssl : ℕ
client_ssl = 2048

abbrev pub client_secure_connection : ℕ
client_secure_connection = 32768

abbrev pub client_plugin_auth : ℕ
client_plugin_auth = 2 ^ 19

abbrev pub client_plugin_auth_lenenc_client_data : ℕ
client_plugin_auth_lenenc_client_data = 2 ^ 21

abbrev pub client_deprecate_eof : ℕ
client_deprecate_eof = 2 ^ 24

-- `capabilities` is its `value_`.
abbrev pub Capabilities : Type 0
Capabilities = ℕ

unfoldable pub has : Capabilities → ℕ → Bool
has caps cap = not (bit_and caps cap == 0)

unfoldable pub has_all : Capabilities → Capabilities → Bool
has_all caps other = bit_and caps other == other

abbrev pub mandatory_capabilities : Capabilities
mandatory_capabilities = bit_or client_protocol_41 (
    bit_or client_plugin_auth (
      bit_or client_plugin_auth_lenenc_client_data
        (bit_or client_deprecate_eof client_secure_connection)))

abbrev pub optional_capabilities : Capabilities
optional_capabilities = 0
