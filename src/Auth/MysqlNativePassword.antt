-- ===== src/Auth/MysqlNativePassword.antt =====
-- impl/mysql_native_password.ipp
use mysql_asio.Base.{ℕ, Bool, not, List, ◌++◌, ◌==◌, if◌then◌else◌, length, take}
use mysql_asio.Base.Error.{Result, ok, err, make_error_code, protocol_value_error}
use mysql_asio.Auth.Digest.{Digests, xor_bytes}

abbrev pub challenge_length : ℕ
challenge_length = 20

module _ (digests : Digests) where
  unfoldable pub compute_auth_string : List ℕ → List ℕ → List ℕ
  compute_auth_string password challenge =
      let password_sha1 = digests.sha1 password in
      let salted_buffer = take challenge_length challenge ++ digests.sha1 password_sha1 in
      xor_bytes password_sha1 (digests.sha1 salted_buffer)

  unfoldable pub compute_response : List ℕ → List ℕ → Bool → Result (List ℕ)
  compute_response password challenge use_ssl =
      if not (length challenge == challenge_length)
      then err (make_error_code protocol_value_error)
      else ok (compute_auth_string password challenge)
