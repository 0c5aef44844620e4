-- ===== src/Auth/CachingSha2Password.antt =====
-- impl/caching_sha2_password.ipp
use mysql_asio.Base.{ℕ, Bool, not, List, [], ◌∷◌, ◌++◌, ◌==◌, if◌then◌else◌, length, take, bytes_eq}
use mysql_asio.Base.Error.{
  Result, ok, err, make_error_code, protocol_value_error, auth_plugin_requires_ssl,
}
use mysql_asio.Auth.Digest.{Digests, xor_bytes}

abbrev pub challenge_length : ℕ
challenge_length = 20

-- "\4"
abbrev pub perform_full_auth : List ℕ
perform_full_auth = 4 ∷ []

module _ (digests : Digests) where
  unfoldable pub compute_auth_string : List ℕ → List ℕ → List ℕ
  compute_auth_string password challenge =
      let password_sha = digests.sha256 password in
      let buffer = digests.sha256 password_sha ++ take challenge_length challenge in
      let salted_password = digests.sha256 buffer in xor_bytes salted_password password_sha

  unfoldable pub compute_response : List ℕ → List ℕ → Bool → Result (List ℕ)
  compute_response password challenge use_ssl =
      if bytes_eq challenge perform_full_auth
      then (if not use_ssl
          then err (make_error_code auth_plugin_requires_ssl)
          else ok (password ++ (0 ∷ [])))
      else if not (length challenge == challenge_length)
      then err (make_error_code protocol_value_error)
      else ok (compute_auth_string password challenge)
