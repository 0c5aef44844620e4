-- ===== src/Algorithms/Wire.antt =====
-- Queries, from the bytes of a stream to the resultset.
pub mod Rows
pub mod Tests
use mysql_asio.Base.{ℕ, ◌≤◌, ◌≡◌, refl, List, [], ◌∷◌, some, length, append-nil, subst, sym, arith}
use mysql_asio.Base.Error.{ErrorInfo}
use mysql_asio.Messages.Common.{com_query_packet}
use mysql_asio.Values.{Calendar}
use mysql_asio.Values.Text.{TextLibrary, deserialize_text_row}
use mysql_asio.Channel.{Stream, Channel, reset_sequence_number}
use mysql_asio.Channel.Reading.{Delivers, IsValid}
use mysql_asio.Channel.Writing.{Accepts}
use mysql_asio.Algorithms.Dialogue.{client, Follows}
use mysql_asio.Algorithms.Layer.{channel_layer, Carries, WritesApart, channel_layer-Follows}
use mysql_asio.Algorithms.Execute.{execute_query}
use mysql_asio.Algorithms.Execute.Replies.{
  Reply, turns_of, IsReply, outcome, execute_generic-IsReply,
}

module _ {S : Type 0} (io : Stream S) (pending written : S → List ℕ)
    (delivers : Delivers io pending) (accepts : Accepts io written) where
  -- On a stream that delivers and accepts bytes, from which a server's reply is to come in packets
  -- numbered behind the client's one packet, `execute_query` over the channel gives what the reply says:
  -- the OK packet, the server's error, or the columns. Fuel of the number of the bytes is enough.
  pub execute_query-Carries :
      (lib : TextLibrary) (cal : Calendar) (query : List ℕ) (info : ErrorInfo) (chan : Channel)
      (s : S) (reply : Reply) (fuel : ℕ)
      → WritesApart io pending written delivers accepts
      → IsValid chan
      → IsReply reply
      → Carries 0
          (client (com_query_packet.serialize_ chan.current_caps query) ∷ turns_of reply)
          (pending s)
      → length (pending s) ≤ fuel
      → (c : Channel × S) × (execute_query (channel_layer io fuel) lib cal query info (chan, s)
          ≡ some (outcome (deserialize_text_row lib cal) info reply c))
  unfolding execute_query reset_sequence_number
  execute_query-Carries lib cal query info chan s reply fuel apart valid h carries enough =
      let turns = client (com_query_packet.serialize_ chan.current_caps query) ∷ turns_of reply in
      let follows =
        channel_layer-Follows io pending written delivers accepts turns fuel
          (record chan { sequence_number = 0 }) s (pending s) apart
          (record { number_fits = omega arith; header_size = valid.header_size }) refl carries
          enough in
      let (c, e, rest) =
        execute_generic-IsReply (channel_layer io fuel) (deserialize_text_row lib cal)
          com_query_packet query info (chan, s) reply [] h
          (subst
            (λ l.
              Follows (channel_layer io fuel) (record chan { sequence_number = 0 }, s)
                (client (com_query_packet.serialize_ chan.current_caps query) ∷ l))
            (sym (append-nil (turns_of reply))) follows) in
      (c, e)
