-- ===== src/Resultset/Async/Rows.antt =====
-- `async_read_row` against `read_row`.
use mysql_asio.Base.{
  ℕ, suc, ◌≡◌, inl, inr, refl, ap, ◌∙◌, Bool, true, false, Bool-cases, List, [], Option, none, some,
  if◌then◌else◌, ◌==◌,
}
use mathlib.Core.Option
use mysql_asio.Base.Error.{
  ErrorInfo, Result, ok, err, Result-cases, success, failed, conditional_clear, conditional_assign,
}
use mysql_asio.Messages.Common.{OkPacket}
use mysql_asio.Values.{Variant}
use mysql_asio.Channel.{Stream, Channel, ReadOutcome, read}
use mysql_asio.Channel.Async.Laws.{CompletesFully, twice, async-eq}
use mysql_asio.Resultset
use mysql_asio.Resultset.{
  ReadRowResult, error, row, eof, RowMessage, row_error, process_read_message, Resultset, complete,
  OwningRow, is_eof, after_read, after_message, one_row, Fetched, prepend, fetched_round,
  fetch_loop, fetch_many, fetch_one,
}
use mysql_asio.Resultset.Async.{RowRead, async_read_row, run_row, AsyncFetched}
use mysql_asio.Resultset.Async.Ops.{message_awaited, read_row_op}

assign-clear :
    (info : Option ErrorInfo) (from : ErrorInfo)
    → conditional_assign (conditional_clear info) from ≡ conditional_assign info from
assign-clear none from = refl
assign-clear (some to) from = refl

pub assign_empty : (info : Option ErrorInfo) → conditional_clear info ≡ conditional_assign info []
assign_empty none = refl
assign_empty (some to) = refl

-- What a caller of the asynchronous fetch sees of what the synchronous one leaves.
abbrev pub told : {S : Type 0} → Option ErrorInfo → Fetched S → AsyncFetched S
told info out = record {
  rows = out.rows;
  code = out.code;
  output_info = conditional_assign info out.info;
  resultset = out.resultset;
  channel = out.channel;
  stream = out.stream;
}

-- A row comes without an error, and without a message of the server.
abbrev pub IsClean : RowMessage → Type 0
IsClean m = m.result ≡ row → (m.code ≡ success) × (m.info ≡ [])

end_message-IsClean :
    (packet : OkPacket) (r : Result OkPacket) → IsClean (Resultset.end_message packet [] r)
end_message-IsClean packet (ok read) h = cc
end_message-IsClean packet (err code) h = cc

row_message-IsClean :
    (packet : OkPacket) (r : Result (List Variant)) → IsClean (Resultset.row_message packet [] r)
row_message-IsClean packet (ok values) h = (refl, refl)
row_message-IsClean packet (err code) h = cc

if-IsClean :
    (test : Bool) (m m' : RowMessage) → IsClean m → IsClean m' → IsClean (if test then m else m')
if-IsClean true m m' h h' = h
if-IsClean false m m' h h' = h'

process_read_message-IsClean :
    (rs : Resultset) (buffer : List ℕ)
    → IsClean (process_read_message rs.deserializer rs.meta buffer rs.ok_packet [])
unfolding process_read_message
process_read_message-IsClean rs buffer =
    elim (Result-cases (Resultset.deserialize_message_type buffer)) [
      | inr (code, e) ↦ rw (process_read_message, e) (λ h. cc)
      | inl ((msg_type, ctx), e) ↦
          rw (process_read_message, e)
            (if-IsClean (msg_type == Resultset.eof_packet_header) _ _
              (end_message-IsClean rs.ok_packet
                (Resultset.deserialize_message (Resultset.deserialize_ok_packet rs.ok_packet) ctx))
              (if-IsClean (msg_type == Resultset.error_packet_header) _ _ (λ h. cc)
                (row_message-IsClean rs.ok_packet
                  (rs.deserializer rs.meta (Resultset.rewind msg_type ctx)))))
    ]

-- A resultset before its end.
abbrev pub opened : Resultset → Resultset
opened rs = record rs { eof_received = false }

module _ {S : Type 0} (io : Stream S) (law : CompletesFully io) (fuel : ℕ) where
  abbrev pub row_told : Option ErrorInfo → RowMessage × ReadOutcome S → RowRead io fuel
  row_told info (m, out) = (m, conditional_assign info m.info, out)

  after_message_read :
      (rs : Resultset) (info : Option ErrorInfo) (read : Option (ReadOutcome S))
      → elim read [
        | none ↦ none
        | some out ↦ run_row io (suc (twice fuel)) 1 rs (conditional_clear info) message_awaited out
      ]
        ≡ Option.map
            (row_told info)
            (elim read [ none ↦ none | some out ↦ some (after_read io fuel rs [] out, out) ])
  unfolding run_row read_row_op
  after_message_read rs info none = refl
  after_message_read rs info (some out) = elim (Bool-cases (failed out.code)) [
    | inl e ↦ rw (e, assign_empty info) refl
    | inr e ↦
        rw
          (
            e,
            assign-clear info
                (process_read_message rs.deserializer rs.meta out.buffer rs.ok_packet []).info,
          )
          refl
  ]

  pub async_read_row-eq :
      (rs : Resultset) (info : Option ErrorInfo) (chan : Channel) (s : S)
      → async_read_row io (suc (twice fuel)) rs (conditional_clear info) chan s
        ≡ Option.map (row_told info) (Resultset.read_row io fuel rs [] chan s)
  unfolding async_read_row run_row read_row_op Resultset.read_row
  async_read_row-eq rs info chan s =
      ap
        (λ read. elim read [
          | none ↦ none
          | some out ↦
              run_row io (suc (twice fuel)) 1 rs (conditional_clear info) message_awaited out
        ])
        ((async-eq io law chan s).0 fuel)
      ∙ after_message_read rs info (read io fuel chan s)

  pub after_read-IsClean :
      (rs : Resultset) (out : ReadOutcome S) → IsClean (after_read io fuel rs [] out)
  after_read-IsClean rs out = elim (Bool-cases (failed out.code)) [
    | inl e ↦ rw e (λ h. cc)
    | inr e ↦ rw e (process_read_message-IsClean rs out.buffer)
  ]

  abbrev pub row_messages : Resultset → Option (ReadOutcome S) → Option (RowMessage × ReadOutcome S)
  row_messages rs read = elim read [
    | none ↦ none
    | some out ↦ some (after_read io fuel rs [] out, out)
  ]
