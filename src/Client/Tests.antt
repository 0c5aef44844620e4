-- ===== src/Client/Tests.antt =====
-- A run of the members.
use mysql_asio.Base.{ℕ, ◌≡◌, refl, [], ◌∷◌, Option, none, some}
use mysql_asio.Base.Error.{ErrorInfo, system, success}
use mysql_asio.Messages.Common.{com_query_packet}
use mysql_asio.Values.Plain.{plain}
use mysql_asio.Values.Text.{deserialize_text_row}
use mysql_asio.Algorithms.Script.{Script, scripted, script_of}
use mysql_asio.Algorithms.Execute.{
  Executed, execute_generic, execute_query, read_fields, create_resultset, new_processor,
}
use mysql_asio.Algorithms.Execute.Responses.{response_completed}
use mysql_asio.Algorithms.Execute.Replies.{completed, outcome}
use mysql_asio.Algorithms.Tests.{library, three_rows, three_rows_body, three_rows-IsReply}
use mysql_asio.Client.{returned}
use mysql_asio.Client.Connection.{
  connection_connect, connection_connect_or_throw, connection_async_connect, connection_query,
  connection_query_or_throw, connection_async_query,
}
use mysql_asio.Client.Forms.{Closes, connection-eq}
use mysql_asio.Algorithms.Async.Connect.{Connected}
use mysql_asio.Algorithms.Handshake.Tests.{params, prefixes, script, accepted_channel, connected}
use mysql_asio.Client.Laws.{text, requests-eq}

abbrev query_script : Script
query_script = script_of ((0x00 ∷ three_rows_body) ∷ [])

abbrev query_run : Executed Script
query_run =
    outcome (deserialize_text_row library plain) [] (completed three_rows three_rows_body)
      (record (script_of []) { outgoing = com_query_packet.serialize_ 0 (65 ∷ []) ∷ [] })

-- The caller's code and info are those of an earlier failure.
query_run_lem :
    connection_query scripted library plain (65 ∷ []) (system 1) (66 ∷ []) query_script
    ≡ some query_run
unfolding connection_query execute_query execute_generic read_fields create_resultset
query_run_lem =
    rw
      (response_completed (new_processor (deserialize_text_row library plain)) [] three_rows
        three_rows_body three_rows-IsReply)
      refl

requests-eq_example :
    (connection_query_or_throw scripted library plain (65 ∷ []) query_script
      ≡ some (returned query_run.output, query_run.channel))
    × ((calls : ℕ) × ((told : Option ErrorInfo) × (connection_async_query scripted calls library
              plain
              (65 ∷ [])
              none
              query_script
            ≡ some ((query_run.code, told, query_run.output), query_run.channel))))
requests-eq_example =
    requests-eq scripted library plain (λ expected got. []) (text (65 ∷ [])) (system 1) (66 ∷ [])
      none query_script query_run query_run_lem

connection-eq_example :
    (connection_connect_or_throw prefixes scripted (λ c. (success, c)) 5 params script
      ≡ some (returned tt, accepted_channel.channel))
    × ((calls : ℕ) × Connected prefixes scripted
          (λ c. (success, c))
          params
          accepted_channel
          (connection_async_connect prefixes scripted
            (λ c. (success, c))
            calls
            params
            (some (1 ∷ []))
            script))
    × ((c : Script) → Closes scripted (system 1) (66 ∷ []) (some (1 ∷ [])) c)
connection-eq_example =
    connection-eq prefixes scripted (λ c. (success, c)) params 5 (system 1) (66 ∷ [])
      (some (1 ∷ [])) script accepted_channel (unfold connection_connect in connected)
