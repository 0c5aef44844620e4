-- ===== src/Auth.antt =====
-- include/boost/mysql/detail/auth: auth_calculator.hpp and impl/auth_calculator.ipp, with the two
-- plugins of impl/mysql_native_password.ipp and impl/caching_sha2_password.ipp below.
pub mod Digest
pub mod MysqlNativePassword
pub mod CachingSha2Password
pub mod Laws
pub mod Tests
use mysql_asio.Base.{ℕ, Bool, List, [], ◌∷◌, Option, none, some, if◌then◌else◌, bytes_eq}
use mysql_asio.Base.Error.{
  Result, ok, err, ErrorCode, success, make_error_code, unknown_auth_plugin,
}
use mysql_asio.Auth.Digest.{Digests}

-- `calculator` takes the password, the challenge and `use_ssl`; its output is the response.
pub record AuthenticationPlugin : Type 0 where
  pub name : List ℕ
  pub calculator : List ℕ → List ℕ → Bool → Result (List ℕ)

-- `plugin` is the pointer, null before the first `calculate`.
pub record AuthCalculator : Type 0 where
  pub plugin : Option AuthenticationPlugin
  pub response : List ℕ

abbrev pub new_auth_calculator : AuthCalculator
new_auth_calculator = record { plugin = none; response = [] }

-- The bytes of "mysql_native_password" and "caching_sha2_password".
abbrev pub mysql_native_password_name : List ℕ
mysql_native_password_name =
    109 ∷ 121 ∷ 115 ∷ 113 ∷ 108 ∷ 95 ∷ 110 ∷ 97 ∷ 116 ∷ 105 ∷ 118 ∷ 101 ∷ 95 ∷ 112 ∷ 97 ∷ 115 ∷ 115
    ∷ 119 ∷ 111 ∷ 114 ∷ 100 ∷ []

abbrev pub caching_sha2_password_name : List ℕ
caching_sha2_password_name =
    99 ∷ 97 ∷ 99 ∷ 104 ∷ 105 ∷ 110 ∷ 103 ∷ 95 ∷ 115 ∷ 104 ∷ 97 ∷ 50 ∷ 95 ∷ 112 ∷ 97 ∷ 115 ∷ 115
    ∷ 119 ∷ 111 ∷ 114 ∷ 100 ∷ []

-- `plugin_name`, with `none` for a null pointer that is followed.
abbrev pub plugin_name : AuthCalculator → Option (List ℕ)
plugin_name calc = elim calc.plugin [ none ↦ none | some plugin ↦ some plugin.name ]

-- What `calculate` does with the plugin that was found. A response that is not computed stays.
abbrev pub with_response : AuthCalculator → Result (List ℕ) → ErrorCode × AuthCalculator
with_response calc (err code) = (code, calc)
with_response calc (ok response) = (success, record calc { response = response })

abbrev pub calculate_with :
    AuthCalculator
    → Option AuthenticationPlugin
    → List ℕ
    → List ℕ
    → Bool
    → ErrorCode × AuthCalculator
calculate_with calc none password challenge use_ssl =
    (make_error_code unknown_auth_plugin, record calc { plugin = none })
calculate_with calc (some plugin) [] challenge use_ssl =
    (success, record calc { plugin = some plugin; response = [] })
calculate_with calc (some plugin) (b ∷ password) challenge use_ssl =
    with_response (record calc { plugin = some plugin })
      (plugin.calculator (b ∷ password) challenge use_ssl)

module _ (digests : Digests) where
  abbrev pub mysql_native_password_plugin : AuthenticationPlugin
  mysql_native_password_plugin = record {
    name = mysql_native_password_name;
    calculator = MysqlNativePassword.compute_response digests;
  }

  abbrev pub caching_sha2_password_plugin : AuthenticationPlugin
  caching_sha2_password_plugin = record {
    name = caching_sha2_password_name;
    calculator = CachingSha2Password.compute_response digests;
  }

  -- `std::find_if` over the array of the two plugins.
  unfoldable pub find_plugin : List ℕ → Option AuthenticationPlugin
  find_plugin name =
      if bytes_eq mysql_native_password_name name
      then some mysql_native_password_plugin
      else if bytes_eq caching_sha2_password_name name
      then some caching_sha2_password_plugin
      else none

  unfoldable pub calculate :
      AuthCalculator → List ℕ → List ℕ → List ℕ → Bool → ErrorCode × AuthCalculator
  calculate calc name password challenge use_ssl =
      calculate_with calc (find_plugin name) password challenge use_ssl
