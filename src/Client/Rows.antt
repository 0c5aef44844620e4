-- ===== src/Client/Rows.antt =====
-- The members of `resultset` that throw, and those that fetch all rows: the count is
-- `numeric_limits<size_t>::max()`.
use mysql_asio.Base.{ℕ, ◌^◌, ◌-◌, List, Option, some}
use mysql_asio.Base.Error.{ErrorInfo}
use mysql_asio.Channel.{Stream, Channel}
use mysql_asio.Resultset.{Resultset, OwningRow, Fetched, fetch_one, fetch_many}
use mysql_asio.Resultset.Async.{AsyncFetched, async_fetch_many}
use mysql_asio.Algorithms.{◌>>=◌}
use mysql_asio.Client.{Outcome, check}

-- The rows, and what else the members of the resultset and its channel leave.
abbrev pub Rows : Type 0 → Type 0
Rows S = Outcome (List OwningRow) × Resultset × Channel × S

abbrev pub checked_rows : {S : Type 0} → Fetched S → Rows S
checked_rows f =
    (check (record { code = f.code; info = f.info }) f.rows, f.resultset, f.channel, f.stream)

abbrev pub max_rows : ℕ
max_rows = 2 ^ 64 - 1

module _ {S : Type 0} (io : Stream S) (fuel : ℕ) where
  unfoldable pub fetch_one_or_throw : Resultset → Channel → S → Option (Rows S)
  fetch_one_or_throw rs chan s = do f ← fetch_one io fuel rs chan s; some (checked_rows f)

  unfoldable pub fetch_many_or_throw : ℕ → Resultset → Channel → S → Option (Rows S)
  fetch_many_or_throw count rs chan s = do
    f ← fetch_many io fuel count rs chan s
    some (checked_rows f)

  unfoldable pub fetch_all : Resultset → Channel → S → Option (Fetched S)
  fetch_all rs chan s = fetch_many io fuel max_rows rs chan s

  unfoldable pub fetch_all_or_throw : Resultset → Channel → S → Option (Rows S)
  fetch_all_or_throw rs chan s = fetch_many_or_throw max_rows rs chan s

  unfoldable pub async_fetch_all :
      Resultset → Option ErrorInfo → Channel → S → Option (AsyncFetched S)
  async_fetch_all rs info chan s = async_fetch_many io fuel max_rows rs info chan s
