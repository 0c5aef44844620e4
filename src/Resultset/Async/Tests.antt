-- ===== src/Resultset/Async/Tests.antt =====
-- The asynchronous fetches of one row and then an error packet.
use mysql_asio.Base.{true, ℕ, ◌≡◌, suc, false, [], ◌∷◌, Option, some}
use mathlib.Core.Option
use mysql_asio.Base.Error.{ErrorInfo, ok}
use mysql_asio.Messages.Common.{empty_ok_packet}
use mysql_asio.Values.{string_view}
use mysql_asio.Channel.{new_channel}
use mysql_asio.Channel.Memory.{Memory, memory_io}
use mysql_asio.Channel.Async.Laws.{twice}
use mysql_asio.Channel.Async.Tests.{memory_completes}
use mysql_asio.Resultset.{Resultset, OwningRow, fetch_one, fetch_many}
use mysql_asio.Resultset.Async.{async_fetch_one, async_fetch_many}
use mysql_asio.Resultset.Async.Rows.{told}
use mysql_asio.Resultset.Async.Laws.{async_fetches-eq}

abbrev strings : Resultset
strings = record {
  deserializer = λ meta ctx. ok (string_view ctx ∷ []);
  meta = [];
  ok_packet = empty_ok_packet;
  eof_received = false;
  info_held = true;
}

-- A row, and then the error 1317 with the state "70100".
abbrev interrupted : Memory
interrupted = record {
  incoming =
      2 ∷ 0 ∷ 0 ∷ 0 ∷ 1 ∷ 5 ∷ 9 ∷ 0 ∷ 0 ∷ 1 ∷ 0xff ∷ 37 ∷ 5 ∷ 35 ∷ 55 ∷ 48 ∷ 49 ∷ 48 ∷ 48 ∷ [];
  outgoing = [];
}

abbrev no_row : OwningRow
no_row = record { values = []; buffer = [] }

abbrev output_info : Option ErrorInfo
output_info = some (1 ∷ [])

async_fetches-eq_example :
    (async_fetch_one memory_io (suc (twice 9)) strings output_info no_row new_channel interrupted
      ≡ Option.map (told output_info) (fetch_one memory_io 9 strings new_channel interrupted))
    × ((count : ℕ)
        → async_fetch_many memory_io
            (suc (twice 9))
            count
            strings
            output_info
            new_channel
            interrupted
          ≡ Option.map
              (told output_info)
              (fetch_many memory_io 9 count strings new_channel interrupted))
async_fetches-eq_example =
    async_fetches-eq memory_io memory_completes 9 strings output_info no_row new_channel interrupted
