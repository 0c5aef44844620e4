-- ===== src/Auth/Tests.antt =====
-- Runs of the authentication plugins, with the first bytes of a string in place of its digests.
use mysql_asio.Base.{
  ℕ, ◌≡◌, refl, true, false, List, [], ◌∷◌, ◌++◌, some, length, take, replicate, length-take,
  length-append, length-replicate, arith,
}
use mysql_asio.Base.Error.{
  success, make_error_code, protocol_value_error, unknown_auth_plugin, auth_plugin_requires_ssl,
}
use mysql_asio.Auth.Digest.{Digests}
use mysql_asio.Auth.MysqlNativePassword
use mysql_asio.Auth.CachingSha2Password
use mysql_asio.Auth.{
  new_auth_calculator, calculate, find_plugin, mysql_native_password_name,
  caching_sha2_password_name,
}
use mysql_asio.Auth.Laws.{
  sha2_password, plugin_of, stored, server_accepts, HaveLengths, calculate-accepted,
  calculate_by_digests,
}

abbrev prefix : ℕ → List ℕ → List ℕ
prefix n s = take n (s ++ replicate n 0)

abbrev prefixes : Digests
prefixes = record { sha1 = prefix 20; sha256 = prefix 32 }

length-prefix : (n : ℕ) (s : List ℕ) → length (prefix n s) ≡ n
length-prefix n s = omega (
  arith,
  length-take n (s ++ replicate n 0),
  length-append s (replicate n 0),
  length-replicate {A = ℕ} n 0,
)

prefixes-HaveLengths : HaveLengths prefixes
prefixes-HaveLengths = (length-prefix 20, length-prefix 32)

abbrev challenge : List ℕ
challenge = replicate 20 7

calculate-accepted_example :
    (response : List ℕ) × (calculate prefixes new_auth_calculator caching_sha2_password_name
        (1 ∷ 2 ∷ 3 ∷ [])
        challenge
        false
      ≡ (success, record { plugin = some (plugin_of prefixes sha2_password); response = response }))
    × (server_accepts prefixes sha2_password
          (stored prefixes sha2_password (1 ∷ 2 ∷ 3 ∷ []))
          challenge
          response
        ≡ true)
calculate-accepted_example =
    calculate-accepted prefixes sha2_password new_auth_calculator 1 (2 ∷ 3 ∷ []) challenge false
      prefixes-HaveLengths refl

-- The passwords differ behind the bytes that the digests show.
calculate_by_digests_example :
    calculate prefixes new_auth_calculator mysql_native_password_name
      (5 ∷ (replicate 31 5 ++ (1 ∷ [])))
      challenge
      false
    ≡ calculate prefixes new_auth_calculator mysql_native_password_name
        (5 ∷ (replicate 31 5 ++ (2 ∷ [])))
        challenge
        false
calculate_by_digests_example =
    calculate_by_digests prefixes new_auth_calculator mysql_native_password_name challenge 5
      (replicate 31 5 ++ (1 ∷ [])) 5 (replicate 31 5 ++ (2 ∷ [])) refl refl

unknown_plugin_test :
    (calculate prefixes new_auth_calculator (1 ∷ []) (2 ∷ []) challenge true).0
    ≡ make_error_code unknown_auth_plugin
unfolding calculate find_plugin
unknown_plugin_test = refl

full_auth_test :
    (calculate prefixes new_auth_calculator caching_sha2_password_name (2 ∷ []) (4 ∷ []) false).0
    ≡ make_error_code auth_plugin_requires_ssl
unfolding calculate find_plugin CachingSha2Password.compute_response
full_auth_test = refl

short_challenge_test :
    (calculate prefixes new_auth_calculator mysql_native_password_name (2 ∷ []) (4 ∷ []) true).0
    ≡ make_error_code protocol_value_error
unfolding calculate find_plugin MysqlNativePassword.compute_response
short_challenge_test = refl
