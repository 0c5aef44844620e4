-- ===== src/Algorithms/Wire/Rows.antt =====
-- A query and the fetching of its rows, from the bytes of a stream on.
use mysql_asio.Base.{ℕ, false, true, List, [], ◌∷◌, Option}
use mathlib.Core.Option
use mysql_asio.Base.Error.{success}
use mysql_asio.Messages.Common.{OkPacket, empty_ok_packet}
use mysql_asio.Metadata.{FieldMetadata}
use mysql_asio.Values.{Calendar}
use mysql_asio.Values.Text.{TextLibrary, deserialize_text_row}
use mysql_asio.Channel.{Channel}
use mysql_asio.Resultset.{Resultset, OwningRow, Fetched}
use mysql_asio.Algorithms.Dialogue.{Turn, server}
use mysql_asio.Algorithms.Execute.Replies.{field_of}

-- The messages of the rows, and the one at the end.
abbrev pub row_turns : List OwningRow → List ℕ → List Turn
row_turns [] end_message = server end_message ∷ []
row_turns (r ∷ rows) end_message = server r.buffer ∷ row_turns rows end_message

-- The resultset behind the columns' definitions.
abbrev pub text_resultset : TextLibrary → Calendar → List (List ℕ × FieldMetadata) → Resultset
text_resultset lib cal cs = record {
  deserializer = deserialize_text_row lib cal;
  meta = field_of cs;
  ok_packet = empty_ok_packet;
  eof_received = false;
  info_held = true;
}

-- What a fetch leaves that has met the end.
abbrev pub all_fetched :
    {S : Type 0} → Resultset → List OwningRow → OkPacket → Channel × S → Fetched S
all_fetched rs rows packet (chan, s) = record {
  rows = rows;
  code = success;
  info = [];
  resultset = record rs { ok_packet = packet; eof_received = true; info_held = false };
  channel = chan;
  stream = s;
}
