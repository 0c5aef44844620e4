-- ===== src/Algorithms/Dialogue.antt =====
-- What passes between the client and a server, as the client meets it.
use mysql_asio.Base.{ℕ, ◌≡◌, List, [], ◌∷◌, some}
use mysql_asio.Base.Error.{success}
use mysql_asio.Algorithms.{MessageLayer}

-- A message of the client, a message of the server, or the TLS handshake.
pub data Turn : Type 0 where
  client server : List ℕ → Turn
  tls : Turn

module _ {C : Type 0} (layer : MessageLayer C) where
  -- From the state on, the operations succeed in this order, with these messages.
  abbrev pub Follows : C → List Turn → Type 0
  Follows c [] = Unit
  Follows c (client message ∷ turns) =
      (c' : C) × (layer.write message c ≡ some (success, c')) × Follows c' turns
  Follows c (server message ∷ turns) =
      (c' : C) × (layer.read c ≡ some ((success, message), c')) × Follows c' turns
  Follows c (tls ∷ turns) = (c' : C) × (layer.ssl_handshake c ≡ (success, c')) × Follows c' turns
