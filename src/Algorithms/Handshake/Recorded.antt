-- ===== src/Algorithms/Handshake/Recorded.antt =====
-- A layer that keeps a list of what is sent through it.
use mysql_asio.Base.{ℕ, ◌≡◌, List, [], ◌∷◌, ◌++◌, Option, none, some, if◌then◌else◌}
use mysql_asio.Base.Error.{ErrorCode, failed}
use mysql_asio.Messages.Handshake.{SslRequest, ssl_request_traits}
use mysql_asio.Algorithms.{MessageLayer}
use mysql_asio.Algorithms.Dialogue.{Turn, client, server, tls}

-- The layer with a list of what the client has sent, and of the TLS handshakes that succeeded.
module _ {C : Type 0} where
  abbrev pub recorded_write :
      List Turn → Option (ErrorCode × C) → Option (ErrorCode × (C × List Turn))
  recorded_write log none = none
  recorded_write log (some (code, c)) = some (code, (c, log))

  abbrev pub recorded_read :
      List Turn
      → Option ((ErrorCode × List ℕ) × C)
      → Option ((ErrorCode × List ℕ) × (C × List Turn))
  recorded_read log none = none
  recorded_read log (some (got, c)) = some (got, (c, log))

  abbrev pub recorded_tls : List Turn → ErrorCode × C → ErrorCode × (C × List Turn)
  recorded_tls log (code, c) = (code, (c, if failed code then log else log ++ (tls ∷ [])))

  abbrev pub recorded : MessageLayer C → MessageLayer (C × List Turn)
  recorded layer = record {
    read = λ s. recorded_read s.1 (layer.read s.0);
    write = λ message s. recorded_write (s.1 ++ (client message ∷ [])) (layer.write message s.0);
    ssl_handshake = λ s. recorded_tls s.1 (layer.ssl_handshake s.0);
    close = λ s. (let (code, c) = layer.close s.0 in (code, (c, s.1)));
    is_open = λ s. layer.is_open s.0;
    reset_sequence_number = λ s. (layer.reset_sequence_number s.0, s.1);
    current_capabilities = λ s. layer.current_capabilities s.0;
    set_current_capabilities = λ caps s. (layer.set_current_capabilities caps s.0, s.1);
  }

abbrev pub IsSslRequest : List ℕ → Type 0
IsSslRequest message = (r : SslRequest) × (message ≡ ssl_request_traits.serialize_ 0 r)

-- Nothing but SSL requests goes out before a TLS handshake,
abbrev pub Guarded : List Turn → Type 0
Guarded [] = Unit
Guarded (client message ∷ log) = IsSslRequest message × Guarded log
Guarded (server message ∷ log) = Guarded log
Guarded (tls ∷ log) = Unit

-- and there has been one.
abbrev pub Sealed : List Turn → Type 0
Sealed [] = ⊥
Sealed (client message ∷ log) = IsSslRequest message × Sealed log
Sealed (server message ∷ log) = Sealed log
Sealed (tls ∷ log) = Unit

pub Sealed-Guarded : (log : List Turn) → Sealed log → Guarded log
Sealed-Guarded [] h = tt
Sealed-Guarded (client message ∷ log) (h, hs) = (h, Sealed-Guarded log hs)
Sealed-Guarded (server message ∷ log) h = Sealed-Guarded log h
Sealed-Guarded (tls ∷ log) h = tt

pub Sealed-append : (log more : List Turn) → Sealed log → Sealed (log ++ more)
Sealed-append [] more h = absurd h
Sealed-append (client message ∷ log) more (h, hs) = (h, Sealed-append log more hs)
Sealed-append (server message ∷ log) more h = Sealed-append log more h
Sealed-append (tls ∷ log) more h = tt

module _ {C : Type 0} (log : List Turn) where
  pub recorded_read-log :
      (o : Option ((ErrorCode × List ℕ) × C)) (got : (ErrorCode × List ℕ) × (C × List Turn))
      → recorded_read log o ≡ some got
      → got.1.1 ≡ log
  recorded_read-log none got h = cc
  recorded_read-log (some (g, c)) got h = cc

  pub recorded_write-log :
      (o : Option (ErrorCode × C)) (got : ErrorCode × (C × List Turn))
      → recorded_write log o ≡ some got
      → got.1.1 ≡ log
  recorded_write-log none got h = cc
  recorded_write-log (some (code, c)) got h = cc
