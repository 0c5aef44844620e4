-- ===== src/Algorithms/Layer.antt =====
-- The channel's functions as a `MessageLayer`, over a stream; and the dialogues that its bytes carry.
use mysql_asio.Base.{
  ℕ, ◌≤◌, ◌≡◌, refl, sym, ap, ◌∙◌, subst, Bool, List, [], ◌∷◌, ◌++◌, Option, none, some, length,
  length-append, arith,
}
use mysql_asio.Base.Error.{ErrorCode}
use mysql_asio.Channel.{
  Stream, Channel, ReadOutcome, max_packet_size, next_number, reset_sequence_number,
  set_current_capabilities, read, write, ssl_handshake, close,
}
use mysql_asio.Channel.Packets.{Packets}
use mysql_asio.Channel.Reading.{Delivers, IsValid, read-Packets}
use mysql_asio.Channel.Writing.{Accepts, write-HasWritten}
use mysql_asio.Resultset.Rows.{number_after}
use mysql_asio.Algorithms.{MessageLayer}
use mysql_asio.Algorithms.Dialogue.{Turn, client, server, tls, Follows}

module _ {S : Type 0} where
  abbrev pub read_outcome : Option (ReadOutcome S) → Option ((ErrorCode × List ℕ) × (Channel × S))
  read_outcome none = none
  read_outcome (some out) = some ((out.code, out.buffer), (out.channel, out.stream))

  abbrev pub write_outcome : Option (ErrorCode × Channel × S) → Option (ErrorCode × (Channel × S))
  write_outcome none = none
  write_outcome (some (code, chan, s)) = some (code, (chan, s))

  -- With the fuel of `read`.
  abbrev pub channel_layer : Stream S → ℕ → MessageLayer (Channel × S)
  channel_layer io fuel = record {
    read = λ c. read_outcome (read io fuel c.0 c.1);
    write = λ message c. write_outcome (write io message c.0 c.1);
    ssl_handshake = λ c. (let (code, chan, s) = ssl_handshake io c.0 c.1 in (code, (chan, s)));
    close = λ c. (let (code, s) = close io c.1 in (code, (c.0, s)));
    is_open = λ c. io.is_open c.1;
    reset_sequence_number = λ c. (reset_sequence_number 0 c.0, c.1);
    current_capabilities = λ c. c.0.current_caps;
    set_current_capabilities = λ caps c. (set_current_capabilities caps c.0, c.1);
  }

-- The bytes that are to come hold the server's messages in packets, numbered through the dialogue
-- from a number on; the client's messages fit into a packet each. TLS is left out.
abbrev pub Carries : ℕ → List Turn → List ℕ → Type 0
Carries seq [] bytes = Unit
Carries seq (client message ∷ turns) bytes =
    (length message ≤ max_packet_size) × Carries (next_number seq) turns bytes
Carries seq (server message ∷ turns) bytes =
    (wire : List ℕ) × (tail : List ℕ) × Packets seq message wire
    × (bytes ≡ wire ++ tail)
    × Carries (number_after seq message) turns tail
Carries seq (tls ∷ turns) bytes = ⊥

module _ {S : Type 0} (io : Stream S) (pending written : S → List ℕ)
    (delivers : Delivers io pending) (accepts : Accepts io written) where
  -- What is to come is not touched by a write.
  abbrev pub WritesApart : Type 0
  WritesApart = (tls : Bool) (bytes : List ℕ) (s : S) → pending (io.write tls bytes s).1 ≡ pending s

  -- On a stream that delivers and accepts bytes, a channel follows each dialogue without TLS that the
  -- pending bytes carry, numbered from the channel's number on.
  pub channel_layer-Follows :
      (turns : List Turn) (fuel : ℕ) (chan : Channel) (s : S) (bytes : List ℕ)
      → WritesApart
      → IsValid chan
      → pending s ≡ bytes
      → Carries chan.sequence_number turns bytes
      → length bytes ≤ fuel
      → Follows (channel_layer io fuel) (chan, s) turns
  channel_layer-Follows [] fuel chan s bytes apart valid e h enough = tt
  channel_layer-Follows (tls ∷ turns) fuel chan s bytes apart valid e h enough = absurd h
  channel_layer-Follows (client message ∷ turns) fuel chan s bytes apart valid e (fits, h) enough =
      let w = write-HasWritten io written accepts message chan s in
      (
        (w.channel, w.stream),
        ap write_outcome w.returns,
        channel_layer-Follows turns fuel w.channel w.stream bytes apart
            (record { number_fits = w.number_fits; header_size = w.header_size })
            (w.untouched pending apart ∙ e)
            (subst (λ n. Carries n turns bytes) (sym (w.numbered fits)) h) enough,
      )
  channel_layer-Follows (server message ∷ turns) fuel chan s bytes apart valid e
        (wire, tail, packets, cut, h) enough =
      let got =
        read-Packets io pending delivers chan message wire tail s fuel valid packets (e ∙ cut)
          (omega (arith, enough, ap length cut, length-append wire tail)) in
      (
        (got.out.channel, got.out.stream),
        ap read_outcome got.returns
            ∙ ap (λ (r : ErrorCode × List ℕ). some (r, (got.out.channel, got.out.stream)))
                (rw (got.succeeds, got.appended) refl),
        channel_layer-Follows turns fuel got.out.channel got.out.stream tail apart got.valid
            got.still_pending (subst (λ n. Carries n turns tail) (sym got.numbered) h)
            (omega (arith, enough, ap length cut, length-append wire tail)),
      )
