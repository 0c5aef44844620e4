-- ===== src/Algorithms/Wire/Tests.antt =====
-- A query whose answer has one column and one row, over a stream in memory.
use mysql_asio.Base.{ℕ, List, [], ◌∷◌, ◌++◌, length}
use mysql_asio.Messages.Common.{OkPacket}
use mysql_asio.Metadata.{FieldMetadata}
use mysql_asio.Values.{string_view}
use mysql_asio.Channel.{Channel}
use mysql_asio.Channel.Header.{header_bytes}
use mysql_asio.Channel.Memory.{Memory}
use mysql_asio.Resultset.{OwningRow}

-- A column "a" of strings.
abbrev string_column : FieldMetadata
string_column = record {
  catalog = 100 ∷ 101 ∷ 102 ∷ [];
  schema = [];
  table = [];
  org_table = [];
  name = 97 ∷ [];
  org_name = [];
  character_set = 33;
  column_length = 10;
  type = 253;
  flags = 0;
  decimals = 0;
}

abbrev definition : List ℕ
definition =
    3 ∷ 100 ∷ 101 ∷ 102 ∷ 0 ∷ 0 ∷ 0 ∷ 1 ∷ 97 ∷ 0 ∷ 12 ∷ 33 ∷ 0 ∷ 10 ∷ 0 ∷ 0 ∷ 0 ∷ 253 ∷ 0 ∷ 0 ∷ 0
    ∷ 0 ∷ 0 ∷ []

abbrev one_column : List (List ℕ × FieldMetadata)
one_column = (definition, string_column) ∷ []

abbrev hello : OwningRow
hello = record { values = string_view (104 ∷ 105 ∷ []) ∷ []; buffer = 2 ∷ 104 ∷ 105 ∷ [] }

abbrev end_message : List ℕ
end_message = 0xfe ∷ 0 ∷ 0 ∷ 2 ∷ 0 ∷ 1 ∷ 0 ∷ []

abbrev end_packet : OkPacket
end_packet = record {
  affected_rows = 0;
  last_insert_id = 0;
  status_flags = 2;
  warnings = 1;
  info = [];
}

abbrev packet : ℕ → List ℕ → List ℕ
packet seq message = header_bytes (length message) seq ++ message

abbrev answer : List ℕ
answer =
    packet 1 (1 ∷ [])
    ++ (packet 2 definition ++ (packet 3 (2 ∷ 104 ∷ 105 ∷ []) ++ (packet 4 end_message ++ [])))

abbrev answering : Memory
answering = record { incoming = answer; outgoing = [] }
