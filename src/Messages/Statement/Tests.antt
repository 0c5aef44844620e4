-- ===== src/Messages/Statement/Tests.antt =====
-- Runs of the messages of prepared statements.
use mysql_asio.Messages.Sent.{execute, serialize_outgoing, serialize_outgoing_lem}
use mysql_asio.Base.{some, ◌≡◌, ◌++◌, [], ◌∷◌, arith, true, false}
use mysql_asio.Base.Int.{negsuc}
use mysql_asio.Base.Error.{ok}
use mysql_asio.NullBitmap.{NullBitmapTraits, is_null, null_bitmap}
use mysql_asio.NullBitmap.Laws.{is_null-null_bitmap}
use mysql_asio.Values.{nullptr, int64, string_view, microseconds}
use mysql_asio.Values.Plain.{plain, plain-IsLawful}
use mysql_asio.Messages.Statement.{ComStmtExecutePacket, serialize_execute}
use mysql_asio.Messages.Statement.Server.{read_execute, IsSendableExecute}
use mysql_asio.Messages.Statement.RoundTrip.{execute_back}

-- Five parameters, two of which are NULL.
abbrev execute_message : ComStmtExecutePacket
execute_message = record {
  statement_id = 70000;
  flags = 0;
  iteration_count = 1;
  new_params_bind_flag = 1;
  params =
      nullptr
      ∷ int64 (negsuc 4)
      ∷ string_view (104 ∷ 105 ∷ [])
      ∷ nullptr
      ∷ microseconds (negsuc 3600000000)
      ∷ [];
}

execute_message-IsSendable : IsSendableExecute plain execute_message
execute_message-IsSendable = record {
  id_fits = omega arith;
  flags_fit = omega arith;
  count_fits = omega arith;
  bind_fits = omega arith;
  params_allowed = omega arith;
  params_fit = (λ e. cc, (λ e. omega arith, (λ e. omega arith, (λ e. cc, (λ e. omega arith, tt)))));
}

execute_back_example :
    read_execute plain 5 (serialize_execute plain execute_message ++ [])
    ≡ ok ((0x17, execute_message), [])
execute_back_example =
    execute_back plain plain-IsLawful execute_message [] execute_message-IsSendable

serialize_outgoing_lem_example :
    serialize_outgoing plain (execute execute_message) 8 (1 ∷ 2 ∷ 3 ∷ [])
    ≡ some (serialize_execute plain execute_message)
serialize_outgoing_lem_example =
    serialize_outgoing_lem plain (execute execute_message) 8 (1 ∷ 2 ∷ 3 ∷ []) (omega arith)

abbrev row_bitmap : NullBitmapTraits
row_bitmap = record { offset = 2; num_fields = 8 }

-- Field 6 of a binary row has the first bit of the second byte.
is_null-null_bitmap_example :
    is_null row_bitmap
      (null_bitmap row_bitmap (false ∷ true ∷ false ∷ false ∷ false ∷ false ∷ true ∷ false ∷ []))
      6
    ≡ true
is_null-null_bitmap_example =
    is_null-null_bitmap row_bitmap
      (false ∷ true ∷ false ∷ false ∷ false ∷ false ∷ true ∷ false ∷ []) 6 (omega arith)
