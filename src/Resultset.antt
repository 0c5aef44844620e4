-- ===== src/Resultset.antt =====
-- include/boost/mysql/resultset.hpp and impl/resultset.hpp, with read_row of detail/network_algorithms:
-- how rows are fetched, one or many, until the end of the resultset.
--
-- `deserialize_row_fn` is a pointer to the row function of the text or of the binary protocol, and a
-- parameter here: it makes values of the columns' metadata and a message, or fails. What a failed
-- function leaves in its outputs is not followed, as nobody looks at it.
pub mod Rows
pub mod Processing
pub mod Fetch
pub mod Async
pub mod Tests
use mysql_asio.Base.{
  not, ◌&&◌, ℕ, zero, suc, Bool, true, false, List, [], ◌∷◌, none, some, ◌==◌, if◌then◌else◌, map,
}
use mathlib.Core.Option
use mathlib.Core.Option.{Option}
use mysql_asio.Base.Error.{Result, ok, err, ErrorCode, ErrorInfo, success, failed}
use mysql_asio.Serialization.{DeserializationContext, rewind}
use mysql_asio.Serialization.Message.{deserialize_message, deserialize_message_type}
use mysql_asio.Messages.Common.{OkPacket, deserialize_ok_packet, process_error_packet}
use mysql_asio.Metadata.{FieldMetadata}
use mysql_asio.Values.{Variant}
use mysql_asio.Channel.{Stream, Channel, ReadOutcome, read}

abbrev pub error_packet_header : ℕ
error_packet_header = 0xff

abbrev pub eof_packet_header : ℕ
eof_packet_header = 0xfe

pub data ReadRowResult : Type 0 where
  error row eof : ReadRowResult

abbrev pub DeserializeRowFn : Type 0
DeserializeRowFn = List FieldMetadata → DeserializationContext → Result (List Variant)

-- What `process_read_message` returns and puts into its outputs.
pub record RowMessage : Type 0 where
  pub result : ReadRowResult
  pub code : ErrorCode
  pub values : List Variant
  pub ok_packet : OkPacket
  pub info : ErrorInfo

abbrev pub row_error : ErrorCode → OkPacket → ErrorInfo → RowMessage
row_error code packet info = record {
  result = error;
  code = code;
  values = [];
  ok_packet = packet;
  info = info;
}

-- The end of the resultset, and a row.
abbrev pub end_message : OkPacket → ErrorInfo → Result OkPacket → RowMessage
end_message packet info (err code) = row_error code packet info
end_message packet info (ok read) = record {
  result = eof;
  code = success;
  values = [];
  ok_packet = read;
  info = info;
}

abbrev pub row_message : OkPacket → ErrorInfo → Result (List Variant) → RowMessage
row_message packet info (err code) = row_error code packet info
row_message packet info (ok values) = record {
  result = row;
  code = success;
  values = values;
  ok_packet = packet;
  info = info;
}

unfoldable pub process_read_message :
    DeserializeRowFn → List FieldMetadata → List ℕ → OkPacket → ErrorInfo → RowMessage
process_read_message deserializer meta buffer packet info = elim (deserialize_message_type buffer) [
  | err code ↦ row_error code packet info
  | ok (msg_type, ctx) ↦
      if msg_type == eof_packet_header
      then end_message packet info (deserialize_message (deserialize_ok_packet packet) ctx)
      else if msg_type == error_packet_header
      then (let (code, message) = process_error_packet ctx info in row_error code packet message)
      else row_message packet info (deserializer meta (rewind msg_type ctx))
]

-- The members of a resultset that its fetches use, but for the channel. `ok_packet_.info` is a view:
-- `info_held` says whether the buffer that it points into is still there.
pub record Resultset : Type 0 where
  pub deserializer : DeserializeRowFn
  pub meta : List FieldMetadata
  pub ok_packet : OkPacket
  pub eof_received : Bool
  pub info_held : Bool

unfoldable pub complete : Resultset → Bool
complete rs = rs.eof_received

-- `values` and the buffer that they point into.
pub record OwningRow : Type 0 where
  pub values : List Variant
  pub buffer : List ℕ

abbrev pub is_eof : ReadRowResult → Bool
is_eof error = false
is_eof row = false
is_eof eof = true

-- The row that a fetch of one points to, if there is one.
abbrev pub one_row : ReadRowResult → OwningRow → List OwningRow
one_row row r = r ∷ []
one_row error r = []
one_row eof r = []

-- What a fetch leaves.
pub record Fetched (S : Type 0) : Type 0 where
  pub rows : List OwningRow
  pub code : ErrorCode
  pub info : ErrorInfo
  pub resultset : Resultset
  pub channel : Channel
  pub stream : S

abbrev pub prepend : {S : Type 0} → OwningRow → Fetched S → Fetched S
prepend first out = record out { rows = first ∷ out.rows }

module _ {S : Type 0} (io : Stream S) (fuel : ℕ) where
  -- A message and what becomes of it; a failed read leaves the outputs alone.
  abbrev pub after_read : Resultset → ErrorInfo → ReadOutcome S → RowMessage
  after_read rs info out =
      if failed out.code
      then row_error out.code rs.ok_packet info
      else process_read_message rs.deserializer rs.meta out.buffer rs.ok_packet info

  unfoldable pub read_row :
      Resultset → ErrorInfo → Channel → S → Option (RowMessage × ReadOutcome S)
  read_row rs info chan s = elim (read io fuel chan s) [
    | none ↦ none
    | some out ↦ some (after_read rs info out, out)
  ]

  -- `eof_received_` and the OK packet after a read of `fetch_one`, whose buffer is the resultset's.
  abbrev pub after_own_message : Resultset → RowMessage → Resultset
  after_own_message rs m = record rs { ok_packet = m.ok_packet; eof_received = is_eof m.result }

  -- After a read of `fetch_many`: the buffer of the end is a local variable of the loop, which is
  -- destroyed, and the OK packet's info points into it.
  abbrev pub after_message : Resultset → RowMessage → Resultset
  after_message rs m = record rs {
    ok_packet = m.ok_packet;
    eof_received = is_eof m.result;
    info_held = not (is_eof m.result) && rs.info_held;
  }

  -- `clear_errors` comes first.
  unfoldable pub fetch_one : Resultset → Channel → S → Option (Fetched S)
  fetch_one rs chan s =
      if complete rs
      then some (record {
        rows = [];
        code = success;
        info = [];
        resultset = rs;
        channel = chan;
        stream = s;
      })
      else elim (read_row rs [] chan s) [
        | none ↦ none
        | some (m, out) ↦ some (record {
          rows = one_row m.result (record { values = m.values; buffer = out.buffer });
          code = m.code;
          info = m.info;
          resultset = after_own_message rs m;
          channel = out.channel;
          stream = out.stream;
        })
      ]

  -- A round of the loop of `fetch_many`, in front of the rounds behind it.
  abbrev pub fetched_round :
      Resultset → RowMessage × ReadOutcome S → Option (Fetched S) → Option (Fetched S)
  fetched_round rs (m, out) rest = elim m.result [
    | row ↦ Option.map (prepend (record { values = m.values; buffer = out.buffer })) rest
    | _ ↦ some (record {
      rows = [];
      code = m.code;
      info = m.info;
      resultset = after_message rs m;
      channel = out.channel;
      stream = out.stream;
    })
  ]

  unfoldable pub fetch_loop : ℕ → Resultset → ErrorInfo → Channel → S → Option (Fetched S)
  fetch_loop zero rs info chan s = some (record {
    rows = [];
    code = success;
    info = info;
    resultset = rs;
    channel = chan;
    stream = s;
  })
  fetch_loop (suc count) rs info chan s = elim (read_row rs info chan s) [
    | none ↦ none
    | some (m, out) ↦
        fetched_round rs (m, out)
          (fetch_loop count (after_message rs m) m.info out.channel out.stream)
  ]

  unfoldable pub fetch_many : ℕ → Resultset → Channel → S → Option (Fetched S)
  fetch_many count rs chan s =
      if complete rs
      then some (record {
        rows = [];
        code = success;
        info = [];
        resultset = rs;
        channel = chan;
        stream = s;
      })
      else fetch_loop count rs [] chan s
