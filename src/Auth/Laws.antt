-- ===== src/Auth/Laws.antt =====
-- The servers' side of the two plugins, and what a response gives away.
use mysql_asio.Base.{
  ℕ, zero, suc, ◌≡◌, refl, sym, ap, ◌∙◌, Bool, true, false, List, [], ◌∷◌, ◌++◌, some, length, take,
  bytes_eq, bytes_eq_refl, arith, ◌==◌, Bool-cases, inl, inr, ◌&&◌,
}
use mysql_asio.Base.Bits.{xor_back, bit_xor_comm}
use mysql_asio.Base.Error.{ok, success}
use mysql_asio.Auth.Digest.{Digests, xor_bytes}
use mysql_asio.Auth.MysqlNativePassword
use mysql_asio.Auth.CachingSha2Password
use mysql_asio.Auth.{
  AuthenticationPlugin, AuthCalculator, mysql_native_password_plugin, caching_sha2_password_plugin,
  find_plugin, calculate, mysql_native_password_name, caching_sha2_password_name,
}

xor_bytes_back : (xs ys : List ℕ) → length xs ≡ length ys → xor_bytes (xor_bytes xs ys) ys ≡ xs
unfolding xor_bytes
xor_bytes_back [] ys h = refl
xor_bytes_back (x ∷ xs) [] h = absurd (omega arith)
xor_bytes_back (x ∷ xs) (y ∷ ys) h = rw (xor_back x y, xor_bytes_back xs ys (omega arith)) refl

xor_bytes_comm : (xs ys : List ℕ) → xor_bytes xs ys ≡ xor_bytes ys xs
unfolding xor_bytes
xor_bytes_comm [] [] = refl
xor_bytes_comm [] (y ∷ ys) = refl
xor_bytes_comm (x ∷ xs) [] = refl
xor_bytes_comm (x ∷ xs) (y ∷ ys) = rw (bit_xor_comm x y, xor_bytes_comm xs ys) refl

pub data Scheme : Type 0 where
  native_password sha2_password : Scheme

module _ (digests : Digests) where
  -- OpenSSL's digests have `SHA_DIGEST_LENGTH` and `SHA256_DIGEST_LENGTH` bytes.
  abbrev pub HaveLengths : Type 0
  HaveLengths =
      ((s : List ℕ) → length (digests.sha1 s) ≡ 20)
      × ((s : List ℕ) → length (digests.sha256 s) ≡ 32)

  abbrev pub plugin_of : Scheme → AuthenticationPlugin
  plugin_of native_password = mysql_native_password_plugin digests
  plugin_of sha2_password = caching_sha2_password_plugin digests

  -- A server keeps a digest of the digest of the password,
  abbrev pub stored : Scheme → List ℕ → List ℕ
  stored native_password password = digests.sha1 (digests.sha1 password)
  stored sha2_password password = digests.sha256 (digests.sha256 password)

  -- and checks a response with that and the challenge.
  abbrev pub server_accepts : Scheme → List ℕ → List ℕ → List ℕ → Bool
  server_accepts native_password kept challenge response =
      bytes_eq (digests.sha1 (xor_bytes response (digests.sha1 (challenge ++ kept)))) kept
  server_accepts sha2_password kept challenge response =
      bytes_eq (digests.sha256 (xor_bytes response (digests.sha256 (kept ++ challenge)))) kept

  abbrev pub response_of : Scheme → List ℕ → List ℕ → List ℕ
  response_of native_password = MysqlNativePassword.compute_auth_string digests
  response_of sha2_password = CachingSha2Password.compute_auth_string digests

  take_all : (n : ℕ) (xs : List ℕ) → length xs ≡ n → take n xs ≡ xs
  take_all zero [] h = refl
  take_all zero (x ∷ xs) h = absurd (omega arith)
  take_all (suc n) [] h = absurd (omega arith)
  take_all (suc n) (x ∷ xs) h = ap (λ t. x ∷ t) (take_all n xs (omega arith))

  response_accepted :
      (scheme : Scheme) (password challenge : List ℕ)
      → HaveLengths
      → length challenge ≡ 20
      → server_accepts scheme
          (stored scheme password)
          challenge
          (response_of scheme password challenge)
        ≡ true
  unfolding MysqlNativePassword.compute_auth_string CachingSha2Password.compute_auth_string
  response_accepted native_password password challenge (sha1, sha256) h =
      rw
        (
          take_all 20 challenge h,
          xor_bytes_back (digests.sha1 password)
              (digests.sha1 (challenge ++ digests.sha1 (digests.sha1 password)))
              (sha1 _ ∙ sym (sha1 _)),
        )
        (bytes_eq_refl (digests.sha1 (digests.sha1 password)))
  response_accepted sha2_password password challenge (sha1, sha256) h =
      rw
        (
          take_all 20 challenge h,
          xor_bytes_comm (digests.sha256 (digests.sha256 (digests.sha256 password) ++ challenge))
              (digests.sha256 password),
          xor_bytes_back (digests.sha256 password)
              (digests.sha256 (digests.sha256 (digests.sha256 password) ++ challenge))
              (sha256 _ ∙ sym (sha256 _)),
        )
        (bytes_eq_refl (digests.sha256 (digests.sha256 password)))

and-false : (b : Bool) → (b && false) ≡ false
and-false true = refl
and-false false = refl

no_full_auth : (challenge : List ℕ) → length challenge ≡ 20 → bytes_eq challenge (4 ∷ []) ≡ false
no_full_auth [] h = refl
no_full_auth (x ∷ []) h = absurd (omega arith)
no_full_auth (x ∷ y ∷ ys) h = and-false (x == 4)

module _ (digests : Digests) where
  found :
      (scheme : Scheme)
      → find_plugin digests (plugin_of digests scheme).name ≡ some (plugin_of digests scheme)
  unfolding find_plugin
  found native_password = refl
  found sha2_password = refl

  computed :
      (scheme : Scheme) (password challenge : List ℕ) (use_ssl : Bool)
      → length challenge ≡ 20
      → (plugin_of digests scheme).calculator password challenge use_ssl
        ≡ ok (response_of digests scheme password challenge)
  unfolding MysqlNativePassword.compute_response CachingSha2Password.compute_response
  computed native_password password challenge use_ssl h = rw h refl
  computed sha2_password password challenge use_ssl h = rw (no_full_auth challenge h, h) refl

  -- With either plugin, a password that is not empty and a challenge of 20 bytes, `calculate` succeeds,
  -- chooses that plugin, and its response passes the server's check, if the digests have the lengths of
  -- OpenSSL's.
  pub calculate-accepted :
      (scheme : Scheme) (calc : AuthCalculator) (first : ℕ) (rest challenge : List ℕ)
      (use_ssl : Bool)
      → HaveLengths digests
      → length challenge ≡ 20
      → (response : List ℕ) × (calculate digests calc
            (plugin_of digests scheme).name
            (first ∷ rest)
            challenge
            use_ssl
          ≡ (success, record { plugin = some (plugin_of digests scheme); response = response }))
        × (server_accepts digests scheme (stored digests scheme (first ∷ rest)) challenge response
            ≡ true)
  unfolding calculate
  calculate-accepted scheme calc first rest challenge use_ssl lengths h = (
    response_of digests scheme (first ∷ rest) challenge,
    rw (found scheme, computed scheme (first ∷ rest) challenge use_ssl h) refl,
    response_accepted digests scheme (first ∷ rest) challenge lengths h,
  )

  -- Without TLS, and whatever name and challenge a server sends, `calculate` does the same for two
  -- passwords that are not empty and have the same digests: nothing else of a password can get out.
  pub calculate_by_digests :
      (calc : AuthCalculator) (name challenge : List ℕ) (first : ℕ) (rest : List ℕ) (first' : ℕ)
      (rest' : List ℕ)
      → digests.sha1 (first ∷ rest) ≡ digests.sha1 (first' ∷ rest')
      → digests.sha256 (first ∷ rest) ≡ digests.sha256 (first' ∷ rest')
      → calculate digests calc name (first ∷ rest) challenge false
        ≡ calculate digests calc name (first' ∷ rest') challenge false
  unfolding calculate find_plugin MysqlNativePassword.compute_response
      CachingSha2Password.compute_response MysqlNativePassword.compute_auth_string
      CachingSha2Password.compute_auth_string
  calculate_by_digests calc name challenge first rest first' rest' h1 h256 =
      elim (Bool-cases (bytes_eq mysql_native_password_name name)) [
        | inl e ↦ rw (e, h1) refl
        | inr e ↦ elim (Bool-cases (bytes_eq caching_sha2_password_name name)) [
          | inl e' ↦ elim (Bool-cases (bytes_eq challenge (4 ∷ []))) [
            | inl e'' ↦ rw (e, e', e'') refl
            | inr e'' ↦ rw (e, e', e'', h256) refl
          ]
          | inr e' ↦ rw (e, e') refl
        ]
      ]
