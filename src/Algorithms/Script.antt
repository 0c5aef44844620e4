-- ===== src/Algorithms/Script.antt =====
-- A layer that hands out a list of messages, for the runs of the tests.
use mysql_asio.Base.{ℕ, Bool, true, false, List, [], ◌∷◌, ◌++◌, Option, some}
use mysql_asio.Base.Error.{ErrorCode, system, success}
use mysql_asio.Capabilities.{Capabilities}
use mysql_asio.Algorithms.{MessageLayer}

-- The messages to come, and the client's so far.
pub record Script : Type 0 where
  pub incoming : List (List ℕ)
  pub outgoing : List (List ℕ)
  pub capabilities : Capabilities
  pub opened : Bool

-- Reading behind the last message gives a code of the stream.
abbrev pub next_message : Script → Option ((ErrorCode × List ℕ) × Script)
next_message s = elim s.incoming [
  | [] ↦ some ((system 1, []), s)
  | message ∷ incoming ↦ some ((success, message), record s { incoming = incoming })
]

abbrev pub scripted : MessageLayer Script
scripted = record {
  read = next_message;
  write = λ message s. some (success, record s { outgoing = s.outgoing ++ (message ∷ []) });
  ssl_handshake = λ s. (success, s);
  close = λ s. (success, record s { opened = false });
  is_open = λ s. s.opened;
  reset_sequence_number = λ s. s;
  current_capabilities = λ s. s.capabilities;
  set_current_capabilities = λ caps s. record s { capabilities = caps };
}

abbrev pub script_of : List (List ℕ) → Script
script_of incoming = record { incoming = incoming; outgoing = []; capabilities = 0; opened = true }
