-- ===== src/Algorithms/Prepare/Replies.antt =====
-- What prepare_statement makes of each of a server's replies.
use mysql_asio.Base.{ℕ, ◌+◌, ◌≡◌, ◌≢◌, refl, List, [], ◌∷◌, ◌++◌, none, some, length, ≢→==, arith}
use mysql_asio.Base.Error.{ok, ErrorInfo, success, make_error_code}
use mysql_asio.Serialization.Message.{deserialize_message-ok}
use mysql_asio.Messages.Common.{ErrPacket, deserialize_err_packet}
use mysql_asio.Messages.Statement.{
  ComStmtPrepareOkPacket, com_stmt_prepare_packet, deserialize_prepare_ok,
}
use mysql_asio.Resultset.Processing.{message_type_of}
use mysql_asio.Algorithms.{MessageLayer}
use mysql_asio.Algorithms.Dialogue.{Turn, client, server, Follows}
use mysql_asio.Algorithms.Execute.Responses.{error_packet_read}
use mysql_asio.Algorithms.Prepare.{
  process_prepare_response, get_num_metadata_packets, Prepared, skip_metadata, prepare_statement,
}

-- The server's packet, with its bytes behind the type, and one message for each parameter and column.
pub data PrepareReply : Type 0 where
  prepared : ComStmtPrepareOkPacket → List ℕ → List (List ℕ) → PrepareReply
  refused : ErrPacket → List ℕ → PrepareReply

abbrev pub messages_of : List (List ℕ) → List Turn
messages_of [] = []
messages_of (message ∷ messages) = server message ∷ messages_of messages

abbrev pub turns_of : PrepareReply → List Turn
turns_of (prepared packet body metadata) = server (0x00 ∷ body) ∷ messages_of metadata
turns_of (refused packet body) = server (0xff ∷ body) ∷ []

abbrev pub IsPrepareReply : PrepareReply → Type 0
IsPrepareReply (prepared packet body metadata) =
    (deserialize_prepare_ok body ≡ ok (packet, []))
    × (length metadata ≡ packet.num_params + packet.num_columns)
IsPrepareReply (refused packet body) =
    (deserialize_err_packet body ≡ ok (packet, [])) × (packet.error_code ≢ 0)

abbrev pub prepare_outcome : {C : Type 0} → ErrorInfo → PrepareReply → C → Prepared C
prepare_outcome info (prepared packet body metadata) c = record {
  code = success;
  info = info;
  statement = some packet;
  channel = c;
}
prepare_outcome info (refused packet body) c = record {
  code = make_error_code packet.error_code;
  info = packet.error_message;
  statement = none;
  channel = c;
}

pub response_prepared :
    (packet : ComStmtPrepareOkPacket) (body : List ℕ) (info : ErrorInfo)
    → deserialize_prepare_ok body ≡ ok (packet, [])
    → process_prepare_response (0x00 ∷ body) info ≡ (success, info, packet)
unfolding process_prepare_response
response_prepared packet body info h =
    rw (message_type_of 0x00 body, deserialize_message-ok deserialize_prepare_ok body packet h) refl

response_refused :
    (packet : ErrPacket) (body : List ℕ) (info : ErrorInfo)
    → deserialize_err_packet body ≡ ok (packet, [])
    → (process_prepare_response (0xff ∷ body) info).0 ≡ make_error_code packet.error_code
      × ((process_prepare_response (0xff ∷ body) info).1 ≡ packet.error_message)
unfolding process_prepare_response
response_refused packet body info h =
    rw (message_type_of 0xff body, error_packet_read body info packet h) (refl, refl)

module _ {C : Type 0} (layer : MessageLayer C) where
  Follows-metadata :
      (metadata : List (List ℕ)) (response : ComStmtPrepareOkPacket) (info : ErrorInfo) (c : C)
      (rest : List Turn)
      → Follows layer c (messages_of metadata ++ rest)
      → (c' : C) × (skip_metadata layer (length metadata) response info c
          ≡ skip_metadata layer 0 response info c')
        × Follows layer c' rest
  unfolding skip_metadata
  Follows-metadata [] response info c rest follows = (c, refl, follows)
  Follows-metadata (message ∷ metadata) response info c rest (c', received, follows) =
      let (last, e, f) = Follows-metadata metadata response info c' rest follows in
      (last, rw received e, f)

  -- From a channel in its initial state, whose next steps are to take the statement and to deliver a
  -- reply of the server: `prepare_statement` gives the statement that the server has prepared, or the
  -- server's error, and has read all of the reply, the metadata included, and nothing behind it.
  pub prepare_statement-IsPrepareReply :
      (statement : List ℕ) (info : ErrorInfo) (c : C) (reply : PrepareReply) (rest : List Turn)
      → IsPrepareReply reply
      → Follows layer (layer.reset_sequence_number c) (
          client (com_stmt_prepare_packet.serialize_ (layer.current_capabilities c) statement)
          ∷ (turns_of reply ++ rest))
      → (c' : C) × (prepare_statement layer statement info c ≡ some (prepare_outcome info reply c'))
        × Follows layer c' rest
  unfolding prepare_statement skip_metadata get_num_metadata_packets
  prepare_statement-IsPrepareReply statement info c (prepared packet body metadata) rest (h, all)
        (c1, sent, (c2, received, follows)) =
      let (last, e, f) = Follows-metadata metadata packet info c2 rest follows in
      let count : packet.num_columns + packet.num_params ≡ length metadata = omega arith in
      (last, rw (sent, received, response_prepared packet body info h, count, e) refl, f)
  prepare_statement-IsPrepareReply statement info c (refused packet body) rest (h, error)
        (c1, sent, (c2, received, follows)) =
      let (code, message) = response_refused packet body info h in
      (c2, rw (sent, received, code, message, ≢→== packet.error_code 0 error) refl, follows)
