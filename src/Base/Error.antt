-- ===== src/Base/Error.antt =====
-- include/boost/mysql/errc.hpp, error.hpp and impl/error.hpp: error codes, and results that carry
-- one.
use Prim.Native.Nat.{ℕ}
use mathlib.Core.Path.{◌≡◌, refl}
use mathlib.Core.Logic.{◌⊎◌, inl, inr}
use mathlib.Core.Bool.{Bool, not}
use mathlib.Core.List.{List, []}
use mathlib.Core.Option.{Option, none, some}
use mysql_asio.Base.Tests.{◌==◌}

-- An `errc` is its `int` value: whatever number a server sends in an error packet is cast to it.
abbrev pub Errc : Type 0
Errc = ℕ

abbrev pub incomplete_message : Errc
incomplete_message = 65536

abbrev pub extra_bytes : Errc
extra_bytes = 65537

abbrev pub sequence_number_mismatch : Errc
sequence_number_mismatch = 65538

abbrev pub server_unsupported : Errc
server_unsupported = 65539

abbrev pub protocol_value_error : Errc
protocol_value_error = 65540

abbrev pub unknown_auth_plugin : Errc
unknown_auth_plugin = 65541

abbrev pub auth_plugin_requires_ssl : Errc
auth_plugin_requires_ssl = 65542

abbrev pub wrong_num_params : Errc
wrong_num_params = 65543

-- `boost::system::error_code`: a value with its category. The streams' codes are `system`.
pub data ErrorCode : Type 0 where
  mysql : Errc → ErrorCode
  system : ℕ → ErrorCode

abbrev pub make_error_code : Errc → ErrorCode
make_error_code = mysql

-- The default `error_code()`.
abbrev pub success : ErrorCode
success = system 0

-- `if (code)`: a code is an error if its value is not 0, whatever the category.
abbrev pub failed : ErrorCode → Bool
failed (mysql e) = not (e == 0)
failed (system e) = not (e == 0)

-- `error_info` is its message.
abbrev pub ErrorInfo : Type 0
ErrorInfo = List ℕ

-- A pointer to an error info, which may be null.
abbrev pub conditional_clear : Option ErrorInfo → Option ErrorInfo
conditional_clear none = none
conditional_clear (some info) = some []

abbrev pub conditional_assign : Option ErrorInfo → ErrorInfo → Option ErrorInfo
conditional_assign none from = none
conditional_assign (some to) from = some from

-- What a function that fills an output returns: the output, or the code with which it stopped.
pub data Result {ℓ} (Output : Type ℓ) : Type ℓ where
  err : ErrorCode → Result Output
  ok : Output → Result Output

infixl 5 ◌>>=◌
abbrev pub ◌>>=◌ {ℓ κ} :
    {A : Type ℓ} {B : Type κ} (m : Result A) (next : (output : A) → Result B) → Result B
err code >>= next = err code
ok output >>= next = next output

-- A chain that succeeds has a first step that does.
pub >>=-eq-ok {ℓ κ} :
    {A : Type ℓ} {B : Type κ} (m : Result A) (next : A → Result B) {last : B}
    → (m >>= next) ≡ ok last
    → (output : A) × (m ≡ ok output) × (next output ≡ ok last)
>>=-eq-ok (err code) next h = cc
>>=-eq-ok (ok output) next h = (output, refl, h)

pub Result-cases {ℓ} :
    {A : Type ℓ} (r : Result A) → ((a : A) × (r ≡ ok a)) ⊎ ((e : ErrorCode) × (r ≡ err e))
Result-cases (ok a) = inl (a, refl)
Result-cases (err e) = inr (e, refl)
