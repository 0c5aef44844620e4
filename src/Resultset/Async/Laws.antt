-- ===== src/Resultset/Async/Laws.antt =====
-- The asynchronous fetches against the synchronous ones.
use mysql_asio.Base.{
  ℕ, suc, ◌≡◌, inl, inr, refl, sym, ap, ◌∙◌, subst, true, Bool-cases, Option, none, some,
}
use mathlib.Core.Option
use mysql_asio.Base.Error.{ErrorInfo}
use mysql_asio.Channel.{Stream, Channel, ReadOutcome, read}
use mysql_asio.Channel.Async.Laws.{CompletesFully, twice}
use mysql_asio.Resultset
use mysql_asio.Resultset.{
  ReadRowResult, error, row, eof, RowMessage, row_error, process_read_message, Resultset, complete,
  OwningRow, is_eof, after_read, after_own_message, one_row, Fetched, prepend, fetched_round,
  fetch_loop, fetch_many, fetch_one,
}
use mysql_asio.Resultset.Async.{
  RowRead, AsyncFetched, async_fetch_many, run_fetch_one, async_fetch_one,
}
use mysql_asio.Resultset.Async.Ops.{row_awaited, fetch_one_op}
use mysql_asio.Resultset.Async.Rows.{
  assign_empty, told, opened, row_told, row_messages, async_read_row-eq,
}
use mysql_asio.Resultset.Async.Many.{async_fetch_many-eq}

module _ {S : Type 0} (io : Stream S) (law : CompletesFully io) (fuel : ℕ) where
  abbrev one_continued : Resultset → Option (RowRead io fuel) → Option (AsyncFetched S)
  one_continued rs read = elim read [
    | none ↦ none
    | some (m, info', out) ↦
        run_fetch_one io (suc (twice fuel)) 1
          (record {
            point = row_awaited;
            resultset = record rs { ok_packet = m.ok_packet };
            current_row = record { values = m.values; buffer = out.buffer };
          })
          info' m.code m.result out.channel out.stream
  ]

  one_fetched :
      (rs : Resultset) (info : Option ErrorInfo) (read : Option (ReadOutcome S))
      → one_continued rs (Option.map (row_told io law fuel info) (row_messages io law fuel rs read))
        ≡ Option.map (told info) (elim (row_messages io law fuel rs read) [
          | none ↦ none
          | some (m, out) ↦ some (record {
            rows = one_row m.result (record { values = m.values; buffer = out.buffer });
            code = m.code;
            info = m.info;
            resultset = after_own_message io fuel rs m;
            channel = out.channel;
            stream = out.stream;
          })
        ])
  unfolding run_fetch_one fetch_one_op
  one_fetched rs info none = refl
  one_fetched rs info (some out) = refl

  async_fetch_one_opened :
      (rs : Resultset) (info : Option ErrorInfo) (current : OwningRow) (chan : Channel) (s : S)
      → async_fetch_one io (suc (twice fuel)) (opened rs) info current chan s
        ≡ Option.map (told info) (fetch_one io fuel (opened rs) chan s)
  unfolding async_fetch_one fetch_one run_fetch_one fetch_one_op complete Resultset.read_row
  async_fetch_one_opened rs info current chan s =
      ap (one_continued (opened rs)) (async_read_row-eq io law fuel (opened rs) info chan s)
      ∙ one_fetched (opened rs) info (read io fuel chan s)

  async_fetch_one_complete :
      (rs : Resultset) (info : Option ErrorInfo) (current : OwningRow) (chan : Channel) (s : S)
      → rs.eof_received ≡ true
      → async_fetch_one io (suc (twice fuel)) rs info current chan s
        ≡ Option.map (told info) (fetch_one io fuel rs chan s)
  unfolding async_fetch_one fetch_one run_fetch_one fetch_one_op complete
  async_fetch_one_complete rs info current chan s e = rw (e, assign_empty info) refl

  async_fetch_one-eq :
      (rs : Resultset) (info : Option ErrorInfo) (current : OwningRow) (chan : Channel) (s : S)
      → async_fetch_one io (suc (twice fuel)) rs info current chan s
        ≡ Option.map (told info) (fetch_one io fuel rs chan s)
  async_fetch_one-eq rs info current chan s = elim (Bool-cases rs.eof_received) [
    | inl e ↦ async_fetch_one_complete rs info current chan s e
    | inr e ↦
        subst
          (λ (r : Resultset).
            async_fetch_one io (suc (twice fuel)) r info current chan s
            ≡ Option.map (told info) (fetch_one io fuel r chan s))
          {x = opened rs} {y = rs} (ap (λ b. record rs { eof_received = b }) (sym e))
          (async_fetch_one_opened rs info current chan s)
  ]

-- On a stream whose operations keep Boost.Asio's promises, in every state of the resultset and
-- whatever the server sends: the asynchronous fetches of one row and of many complete with the rows,
-- the code, the resultset and the channel that the synchronous ones return, and put their message
-- into the caller's error info, if there is one; or neither ends.
pub async_fetches-eq :
    {S : Type 0} (io : Stream S) (law : CompletesFully io) (fuel : ℕ) (rs : Resultset)
    (info : Option ErrorInfo) (current : OwningRow) (chan : Channel) (s : S)
    → (async_fetch_one io (suc (twice fuel)) rs info current chan s
        ≡ Option.map (told info) (fetch_one io fuel rs chan s))
      × ((count : ℕ)
          → async_fetch_many io (suc (twice fuel)) count rs info chan s
            ≡ Option.map (told info) (fetch_many io fuel count rs chan s))
async_fetches-eq io law fuel rs info current chan s = (
  async_fetch_one-eq io law fuel rs info current chan s,
  λ count. async_fetch_many-eq io law fuel count rs info chan s,
)
