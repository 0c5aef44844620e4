-- ===== src/Algorithms.antt =====
-- include/boost/mysql/detail/network_algorithms: what the library does with a server, in terms of whole
-- messages.
--
-- The channel under the algorithms is a `MessageLayer`; `Algorithms.Layer` makes one of the functions
-- of `Channel`. Before each write `serialize_message` fills a buffer (the channel's shared one, or the
-- processor's); whatever it held, it then holds just the message
-- (`Messages.Sent.serialize_outgoing_lem`), so the algorithms pass on the message, and what a
-- shared buffer holds between two algorithms is not followed.
pub mod Dialogue
pub mod Layer
pub mod Wire
pub mod Script
pub mod Tests
pub mod Execute
pub mod Handshake
pub mod Prepare
pub mod Connection
pub mod Async
use mysql_asio.Base.{ℕ, ◌≡◌, refl, ap, Bool, List, Option, none, some}
use mysql_asio.Base.Error.{ErrorCode}
use mysql_asio.Capabilities.{Capabilities}

-- The channel's operations on a state `C`, of the channel and its stream. `none` says that a loop of
-- the channel ran out of fuel. A read gives the code and the buffer.
pub record MessageLayer (C : Type 0) : Type 0 where
  pub read : C → Option ((ErrorCode × List ℕ) × C)
  pub write : List ℕ → C → Option (ErrorCode × C)
  pub ssl_handshake : C → ErrorCode × C
  pub close : C → ErrorCode × C
  pub is_open : C → Bool
  pub reset_sequence_number : C → C
  pub current_capabilities : C → Capabilities
  pub set_current_capabilities : Capabilities → C → C

infixl 5 ◌>>=◌
abbrev pub ◌>>=◌ : {A B : Type 0} → Option A → (A → Option B) → Option B
none >>= next = none
some a >>= next = next a

-- A chain that gives something has a first step that does.
pub >>=-eq-some :
    {A B : Type 0} (m : Option A) (next : A → Option B) {last : B}
    → (m >>= next) ≡ some last
    → (first : A) × (m ≡ some first) × (next first ≡ some last)
>>=-eq-some none next h = cc
>>=-eq-some (some a) next h = (a, refl, h)

pub some_injective : {A : Type 0} (a b : A) → Path (Option A) (some a) (some b) → a ≡ b
some_injective a b h = ap (λ o. elim o [ none ↦ a | some x ↦ x ]) h
