-- ===== src/Auth/Digest.antt =====
-- What the two plugins share: OpenSSL's digests, which are parameters, and the loop over two digests.
use mysql_asio.Base.{ℕ, List, [], ◌∷◌, bit_xor}

-- `SHA1` and `SHA256` of a string.
pub record Digests : Type 0 where
  pub sha1 : List ℕ → List ℕ
  pub sha256 : List ℕ → List ℕ

-- The exclusive or of two arrays of one size.
unfoldable pub xor_bytes : List ℕ → List ℕ → List ℕ
xor_bytes [] ys = []
xor_bytes (x ∷ xs) [] = []
xor_bytes (x ∷ xs) (y ∷ ys) = bit_xor x y ∷ xor_bytes xs ys
