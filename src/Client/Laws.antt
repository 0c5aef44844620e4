-- ===== src/Client/Laws.antt =====
-- The three forms of a request agree.
use mysql_asio.Base.{
  ℕ, ◌≡◌, refl, subst, List, ◌==◌, length, Option, some, Bool-cases, inl, inr, not,
}
use mysql_asio.Base.Error.{ErrorCode, ErrorInfo, conditional_assign, conditional_clear}
use mysql_asio.Messages.Statement.{ComStmtPrepareOkPacket}
use mysql_asio.Messages.Statement.Laws.{com_stmt_execute_traits}
use mysql_asio.Messages.Common.{com_query_packet}
use mysql_asio.Values.{Variant, Calendar}
use mysql_asio.Values.Text.{TextLibrary, deserialize_text_row}
use mysql_asio.Values.Row.{deserialize_binary_row}
use mysql_asio.Resultset.{Resultset}
use mysql_asio.Algorithms.{MessageLayer, some_injective}
use mysql_asio.Algorithms.Execute.{
  Executed, execute_query, execute_statement, make_stmt_execute_packet,
}
use mysql_asio.Algorithms.Prepare.{execute}
use mysql_asio.Algorithms.Async.Execute.{execute_generic-run}
use mysql_asio.Client.{Outcome, check_error_code}
use mysql_asio.Client.Connection.{
  connection_query, connection_query_or_throw, connection_async_query, async_execute_query,
}
use mysql_asio.Client.Statement.{
  statement_execute, statement_execute_or_throw, statement_async_execute, async_execute_statement,
}

-- What a program asks for.
pub data Request : Type 0 where
  text : List ℕ → Request
  statement : ComStmtPrepareOkPacket → List Variant → Request

module _ {C : Type 0} (layer : MessageLayer C) (lib : TextLibrary) (cal : Calendar)
    (expected_but_got : ℕ → ℕ → List ℕ) where
  abbrev pub with_codes : Request → ErrorCode → ErrorInfo → C → Option (Executed C)
  with_codes (text query) code info c = connection_query layer lib cal query code info c
  with_codes (statement stmt params) code info c =
      statement_execute layer cal expected_but_got stmt params code info c

  abbrev pub with_exceptions : Request → C → Option (Outcome (Option Resultset) × C)
  with_exceptions (text query) c = connection_query_or_throw layer lib cal query c
  with_exceptions (statement stmt params) c =
      statement_execute_or_throw layer cal expected_but_got stmt params c

  abbrev pub asynchronous :
      ℕ
      → Request
      → Option ErrorInfo
      → C
      → Option ((ErrorCode × Option ErrorInfo × Option Resultset) × C)
  asynchronous calls (text query) info c = connection_async_query layer calls lib cal query info c
  asynchronous calls (statement stmt params) info c =
      statement_async_execute layer calls cal expected_but_got stmt params info c

  -- The throwing form throws the code and the message, or returns the resultset.
  throws :
      (request : Request) (code : ErrorCode) (info : ErrorInfo) (c : C) (r : Executed C)
      → with_codes request code info c ≡ some r
      → with_exceptions request c ≡ some (check_error_code r.code r.info r.output, r.channel)
  unfolding connection_query connection_query_or_throw statement_execute statement_execute_or_throw
  throws (text query) code info c r h = rw h refl
  throws (statement stmt params) code info c r h = rw h refl

  -- The asynchronous form completes with the same code, resultset and channel.
  abbrev Completes :
      Executed C → Option ((ErrorCode × Option ErrorInfo × Option Resultset) × C) → Type 0
  Completes r o = (told : Option ErrorInfo) × (o ≡ some ((r.code, told, r.output), r.channel))

  -- What the caller's info is told of a wrong number of parameters.
  abbrev told_count : ComStmtPrepareOkPacket → List Variant → Option ErrorInfo → Option ErrorInfo
  told_count stmt params pointer =
      conditional_assign (conditional_clear pointer)
        (expected_but_got stmt.num_params (length params))

  completes :
      (request : Request) (code : ErrorCode) (info : ErrorInfo) (pointer : Option ErrorInfo) (c : C)
      (r : Executed C)
      → with_codes request code info c ≡ some r
      → (calls : ℕ) × Completes r (asynchronous calls request pointer c)
  unfolding connection_query connection_async_query async_execute_query execute_query
      statement_execute statement_async_execute async_execute_statement execute execute_statement
  completes (text query) code info pointer c r h =
      let (calls, (told, same)) =
        execute_generic-run layer (deserialize_text_row lib cal) com_query_packet query c r h in
      (calls, (conditional_assign (conditional_clear pointer) told, rw same refl))
  completes (statement stmt params) code info pointer c r h =
      elim (Bool-cases (not (length params == stmt.num_params))) [
        | inl e ↦ (
          0,
          (
            told_count stmt params pointer,
            subst
                (λ (s : Executed C).
                  asynchronous 0 (statement stmt params) pointer c
                  ≡ some ((s.code, told_count stmt params pointer, s.output), s.channel))
                (some_injective _ r (rw e at h)) (rw e refl),
          ),
        )
        | inr e ↦
            let (calls, (told, same)) =
              execute_generic-run layer (deserialize_binary_row cal) (com_stmt_execute_traits cal)
                (make_stmt_execute_packet stmt.statement_id params) c r (rw e at h) in
            (calls, (conditional_assign (conditional_clear pointer) told, rw (e, same) refl))
      ]

  -- A query, or a statement with any number of parameters, whatever the caller's code and info held:
  -- when the form with codes returns, the form with exceptions leaves the channel in the same state,
  -- and throws this code and message if the code is an error and returns this resultset if not; and
  -- the asynchronous form completes, after finitely many calls, with the same code and the same
  -- resultset and leaves the channel in the same state.
  pub requests-eq :
      (request : Request) (code : ErrorCode) (info : ErrorInfo) (pointer : Option ErrorInfo) (c : C)
      (r : Executed C)
      → with_codes request code info c ≡ some r
      → (with_exceptions request c ≡ some (check_error_code r.code r.info r.output, r.channel))
        × ((calls : ℕ) × Completes r (asynchronous calls request pointer c))
  requests-eq request code info pointer c r h =
      (throws request code info c r h, completes request code info pointer c r h)
