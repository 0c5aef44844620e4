-- ===== src/Resultset/Async/Many.antt =====
-- `async_fetch_many` against `fetch_many`.
use mysql_asio.Base.{
  ℕ, zero, suc, ◌-◌, ◌≡◌, inl, inr, refl, sym, ap, ◌∙◌, subst, true, Bool-cases, List, [], ◌∷◌,
  ◌++◌, Option, none, some, append-nil, append_assoc, ltb, arith, lt→ltb,
}
use mathlib.Core.Option
use mysql_asio.Base.Error.{ErrorCode, ErrorInfo, success, conditional_clear, conditional_assign}
use mysql_asio.Messages.Common.{OkPacket}
use mysql_asio.Values.{Variant}
use mysql_asio.Channel.{Stream, Channel, ReadOutcome, read}
use mysql_asio.Channel.Async.Laws.{CompletesFully, twice}
use mysql_asio.Resultset
use mysql_asio.Resultset.{
  ReadRowResult, error, row, eof, RowMessage, row_error, process_read_message, Resultset, complete,
  OwningRow, is_eof, after_read, after_message, one_row, Fetched, prepend, fetched_round,
  fetch_loop, fetch_many, fetch_one,
}
use mysql_asio.Resultset.Async.{
  RowRead, AsyncFetched, perform_fetch_many, run_fetch_many, async_fetch_many,
}
use mysql_asio.Resultset.Async.Ops.{
  row_awaited, FetchManyOp, row_received, fetch_head, FetchStarted, fetch_many_op,
}
use mysql_asio.Resultset.Async.Rows.{
  assign_empty, told, IsClean, opened, row_told, row_messages, async_read_row-eq,
  after_read-IsClean,
}

module _ {S : Type 0} (io : Stream S) (law : CompletesFully io) (fuel : ℕ) where
  -- The rows that the operation has stored come in front.
  abbrev behind : List OwningRow → Option ErrorInfo → Fetched S → AsyncFetched S
  behind rows info out = told info (record out { rows = rows ++ out.rows })

  behind-prepend :
      (rows : List OwningRow) (r : OwningRow) (info : Option ErrorInfo) (o : Option (Fetched S))
      → Option.map (behind (rows ++ (r ∷ [])) info) o
        ≡ Option.map (behind rows info) (Option.map (prepend r) o)
  behind-prepend rows r info none = refl
  behind-prepend rows r info (some out) = rw (append_assoc rows (r ∷ []) out.rows) refl

  abbrev fetching : List OwningRow → Resultset → ℕ → List ℕ → List Variant → FetchManyOp
  fetching rows rs remaining buffer values = record {
    point = row_awaited;
    parent_resultset = opened rs;
    rows = rows;
    buffer = buffer;
    values = values;
    remaining = remaining;
    cont = true;
  }

  -- From the head of the loop on.
  abbrev Fetches : ℕ → Type 0
  Fetches remaining =
      (rows : List OwningRow) (rs : Resultset) (buffer : List ℕ) (values : List Variant)
      (info : Option ErrorInfo) (chan : Channel) (s : S)
      → perform_fetch_many io (suc (twice fuel))
          (run_fetch_many io (suc (twice fuel)) (suc remaining)) (conditional_clear info) success
          chan s (fetch_head (fetching rows rs remaining buffer values) success)
        ≡ Option.map (behind rows info) (fetch_loop io fuel remaining (opened rs) [] chan s)

  row_received-fetching :
      (rows : List OwningRow) (rs : Resultset) (remaining : ℕ) (buffer : List ℕ)
      (values : List Variant)
      → row_received (fetching rows rs (suc remaining) buffer values)
        ≡ fetching (rows ++ (record { values = values; buffer = buffer } ∷ [])) rs remaining [] []
  unfolding row_received
  row_received-fetching rows rs remaining buffer values =
      ap (λ k. fetching (rows ++ (record { values = values; buffer = buffer } ∷ [])) rs k [] [])
        {x = suc remaining - 1} {y = remaining} (omega arith)

  row_stored :
      (remaining : ℕ) (rows : List OwningRow) (rs : Resultset) (info : Option ErrorInfo)
      (values : List Variant) (out : ReadOutcome S)
      → Fetches remaining
      → run_fetch_many io
          (suc (twice fuel))
          (suc (suc remaining))
          (fetching rows rs (suc remaining) out.buffer values)
          (conditional_assign info [])
          success
          row
          out.channel
          out.stream
        ≡ Option.map (behind rows info) (
            Option.map
              (prepend (record { values = values; buffer = out.buffer }))
              (fetch_loop io fuel remaining (opened rs) [] out.channel out.stream))
  unfolding run_fetch_many fetch_many_op
  row_stored remaining rows rs info values out goes =
      let r : OwningRow = record { values = values; buffer = out.buffer } in
      rw (row_received-fetching rows rs remaining out.buffer values, ← assign_empty info)
        (goes (rows ++ (r ∷ [])) rs [] [] info out.channel out.stream
          ∙ behind-prepend rows r info
              (fetch_loop io fuel remaining (opened rs) [] out.channel out.stream))

  row_fetched :
      (remaining : ℕ) (rows : List OwningRow) (rs : Resultset) (info : Option ErrorInfo)
      (result : ReadRowResult) (code : ErrorCode) (values : List Variant) (packet : OkPacket)
      (message : ErrorInfo) (out : ReadOutcome S)
      → Fetches remaining
      → let m : RowMessage = record {
        result = result;
        code = code;
        values = values;
        ok_packet = packet;
        info = message;
      } in
        IsClean m
        → run_fetch_many io
            (suc (twice fuel))
            (suc (suc remaining))
            (fetching rows (record rs { ok_packet = packet }) (suc remaining) out.buffer values)
            (conditional_assign info message)
            code
            result
            out.channel
            out.stream
          ≡ Option.map (behind rows info) (
              fetched_round io fuel
                (opened rs)
                (m, out)
                (fetch_loop io fuel remaining
                  (after_message io fuel (opened rs) m)
                  message
                  out.channel
                  out.stream))
  unfolding run_fetch_many fetch_many_op fetch_head row_received complete
  row_fetched remaining rows rs info error code values packet message out goes clean =
      rw (append-nil rows) refl
  row_fetched remaining rows rs info eof code values packet message out goes clean =
      rw (append-nil rows) refl
  row_fetched remaining rows rs info row code values packet message out goes clean =
      let (no_error, no_message) = clean refl in
      rw (no_error, no_message)
        (row_stored remaining rows (record rs { ok_packet = packet }) info values out goes)

  -- What becomes of a read, in the operation and in the loop.
  abbrev continued :
      ℕ
      → List OwningRow
      → Resultset
      → List ℕ
      → List Variant
      → Option (RowRead io fuel)
      → Option (AsyncFetched S)
  continued remaining rows rs buffer values read = elim read [
    | none ↦ none
    | some (m, info', out) ↦
        run_fetch_many io (suc (twice fuel)) (suc (suc remaining))
          (fetching rows (record rs { ok_packet = m.ok_packet }) (suc remaining) out.buffer
            m.values)
          info' m.code m.result out.channel out.stream
  ]

  abbrev looped : ℕ → Resultset → Option (RowMessage × ReadOutcome S) → Option (Fetched S)
  looped remaining rs read = elim read [
    | none ↦ none
    | some (m, out) ↦
        fetched_round io fuel rs (m, out)
          (fetch_loop io fuel remaining (after_message io fuel rs m) m.info out.channel out.stream)
  ]

  read_fetched :
      (remaining : ℕ) (rows : List OwningRow) (rs : Resultset) (buffer : List ℕ)
      (values : List Variant) (info : Option ErrorInfo) (read : Option (ReadOutcome S))
      → Fetches remaining
      → continued remaining rows rs buffer values
          (Option.map (row_told io law fuel info) (row_messages io law fuel (opened rs) read))
        ≡ Option.map
            (behind rows info)
            (looped remaining (opened rs) (row_messages io law fuel (opened rs) read))
  read_fetched remaining rows rs buffer values info none goes = refl
  read_fetched remaining rows rs buffer values info (some out) goes =
      let m = after_read io fuel (opened rs) [] out in
      row_fetched remaining rows rs info m.result m.code m.values m.ok_packet m.info out goes
        (after_read-IsClean io law fuel (opened rs) out)

  round_fetched :
      (remaining : ℕ) (rows : List OwningRow) (rs : Resultset) (buffer : List ℕ)
      (values : List Variant) (info : Option ErrorInfo) (chan : Channel) (s : S)
      → Fetches remaining
      → perform_fetch_many io
          (suc (twice fuel))
          (run_fetch_many io (suc (twice fuel)) (suc (suc remaining)))
          (conditional_clear info)
          success
          chan
          s
          (FetchStarted.read_row, fetching rows rs (suc remaining) buffer values)
        ≡ Option.map (behind rows info) (fetch_loop io fuel (suc remaining) (opened rs) [] chan s)
  unfolding fetch_loop Resultset.read_row
  round_fetched remaining rows rs buffer values info chan s goes =
      ap (continued remaining rows rs buffer values)
        (async_read_row-eq io law fuel (opened rs) info chan s)
      ∙ read_fetched remaining rows rs buffer values info (read io fuel chan s) goes

  -- The head of the loop reads a row, or completes with those that it has.
  fetch_head-Fetches : (remaining : ℕ) → Fetches remaining
  unfolding fetch_head complete fetch_loop
  fetch_head-Fetches zero rows rs buffer values info chan s =
      rw (append-nil rows, assign_empty info) refl
  fetch_head-Fetches (suc remaining) rows rs buffer values info chan s =
      let positive : ltb 0 (suc remaining) ≡ true = lt→ltb 0 (suc remaining) (omega arith) in
      rw positive
        (round_fetched remaining rows rs buffer values info chan s (fetch_head-Fetches remaining))

  async_fetch_many_opened :
      (count : ℕ) (rs : Resultset) (info : Option ErrorInfo) (chan : Channel) (s : S)
      → async_fetch_many io (suc (twice fuel)) count (opened rs) info chan s
        ≡ Option.map (told info) (fetch_many io fuel count (opened rs) chan s)
  unfolding async_fetch_many fetch_many run_fetch_many fetch_many_op fetch_head complete fetch_loop
  async_fetch_many_opened zero rs info chan s = rw (assign_empty info) refl
  async_fetch_many_opened (suc count) rs info chan s =
      let positive : ltb 0 (suc count) ≡ true = lt→ltb 0 (suc count) (omega arith) in
      rw positive (round_fetched count [] rs [] [] info chan s (fetch_head-Fetches count))

  async_fetch_many_complete :
      (count : ℕ) (rs : Resultset) (info : Option ErrorInfo) (chan : Channel) (s : S)
      → rs.eof_received ≡ true
      → async_fetch_many io (suc (twice fuel)) count rs info chan s
        ≡ Option.map (told info) (fetch_many io fuel count rs chan s)
  unfolding async_fetch_many fetch_many run_fetch_many fetch_many_op fetch_head complete
  async_fetch_many_complete count rs info chan s e = rw (e, assign_empty info) refl

  pub async_fetch_many-eq :
      (count : ℕ) (rs : Resultset) (info : Option ErrorInfo) (chan : Channel) (s : S)
      → async_fetch_many io (suc (twice fuel)) count rs info chan s
        ≡ Option.map (told info) (fetch_many io fuel count rs chan s)
  async_fetch_many-eq count rs info chan s = elim (Bool-cases rs.eof_received) [
    | inl e ↦ async_fetch_many_complete count rs info chan s e
    | inr e ↦
        subst
          (λ (r : Resultset).
            async_fetch_many io (suc (twice fuel)) count r info chan s
            ≡ Option.map (told info) (fetch_many io fuel count r chan s))
          {x = opened rs} {y = rs} (ap (λ b. record rs { eof_received = b }) (sym e))
          (async_fetch_many_opened count rs info chan s)
  ]
