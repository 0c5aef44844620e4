-- ===== src/Resultset/Fetch.antt =====
-- What is fetched is what was sent.
use mysql_asio.Base.{
  ℕ, zero, suc, ◌+◌, ◌≤◌, ◌≡◌, refl, sym, ap, ◌∙◌, subst, Bool, false, List, [], ◌∷◌, ◌++◌, Option,
  some, length, length-append, append_assoc, append-nil, arith, if◌then◌else◌,
}
use mathlib.Core.Option
use mysql_asio.Base.Error.{ErrorInfo, success}
use mysql_asio.Messages.Common.{OkPacket}
use mysql_asio.Channel.{Stream, Channel, ReadOutcome, read}
use mysql_asio.Channel.Packets.{Packets}
use mysql_asio.Channel.Reading.{Delivers, IsValid, HasRead, read-Packets}
use mysql_asio.Resultset.{
  RowMessage, process_read_message, Resultset, complete, OwningRow, Fetched, prepend, read_row,
  after_message, fetch_loop, fetch_many, fetched_round,
}
use mysql_asio.Resultset.Rows.{number_after, RowsSent, done, next}
use mysql_asio.Resultset.Processing.{row_of, process_row}

module _ {S : Type 0} (io : Stream S) (pending : S → List ℕ) (law : Delivers io pending)
    (fuel : ℕ) where
  -- A read of one message, when it is processed to `m`.
  message_read :
      (rs : Resultset) (info : ErrorInfo) (chan : Channel) (s : S) (payload wire rest : List ℕ)
      (m : RowMessage) (w : HasRead io pending law chan [] payload rest (read io fuel chan s))
      → process_read_message rs.deserializer rs.meta payload rs.ok_packet info ≡ m
      → read_row io fuel rs info chan s ≡ some (m, w.out)
  unfolding read_row
  message_read rs info chan s payload wire rest m w h =
      rw (read_row, w.returns, w.succeeds, w.appended, h) refl

  -- What a fetch leaves that succeeded with `rows`, when `rest` is still to come.
  pub record HasFetched (rows : List OwningRow) (rest : List ℕ) (ended held : Bool)
      (packet : OkPacket) (number : ℕ) (result : Option (Fetched S)) : Type 0 where
    pub out : Fetched S
    pub returns : result ≡ some out
    pub succeeds : out.code ≡ success
    pub fetched : out.rows ≡ rows
    pub still_pending : pending out.stream ≡ rest
    pub completed : complete out.resultset ≡ ended
    pub has_packet : out.resultset.ok_packet ≡ packet
    pub has_info : out.resultset.info_held ≡ held
    pub valid : IsValid out.channel
    pub numbered : out.channel.sequence_number ≡ number

  after_row :
      (rs : Resultset) (r : OwningRow) (info : ErrorInfo)
      → rs.eof_received ≡ false
      → after_message io fuel rs (row_of rs r info) ≡ rs
  after_row rs r info e = ap (λ b. record rs { eof_received = b }) (sym e)

  fetch_step :
      (count : ℕ) (rs : Resultset) (info : ErrorInfo) (chan : Channel) (s : S) (m : RowMessage)
      (out : ReadOutcome S)
      → read_row io fuel rs info chan s ≡ some (m, out)
      → fetch_loop io fuel (suc count) rs info chan s
        ≡ fetched_round io fuel rs
            (m, out)
            (fetch_loop io fuel count (after_message io fuel rs m) m.info out.channel out.stream)
  unfolding fetch_loop
  fetch_step count rs info chan s m out h = rw (fetch_loop, h) refl

  add_row :
      (rs : Resultset) (r : OwningRow) {rows : List OwningRow} {rest : List ℕ} {ended held : Bool}
      {packet : OkPacket} {number : ℕ} {after result : Option (Fetched S)}
      → HasFetched rows rest ended held packet number after
      → result ≡ Option.map (prepend r) after
      → HasFetched (r ∷ rows) rest ended held packet number result
  add_row rs r f e = record {
    out = prepend r f.out;
    returns = e ∙ rw f.returns refl;
    succeeds = f.succeeds;
    fetched = ap (λ l. r ∷ l) f.fetched;
    still_pending = f.still_pending;
    completed = f.completed;
    has_packet = f.has_packet;
    has_info = f.has_info;
    valid = f.valid;
    numbered = f.numbered;
  }

  -- The rows that were sent come in front of whatever the rounds behind them fetch.
  fetch_rows :
      (rs : Resultset) {seq last : ℕ} {rows : List OwningRow} {wire : List ℕ}
      → rs.eof_received ≡ false
      → RowsSent rs seq rows wire last
      → (count k : ℕ) (info : ErrorInfo) (chan : Channel) (s : S) (rest : List ℕ)
        {behind : List OwningRow} {left : List ℕ} {ended held : Bool} {packet : OkPacket}
        {number : ℕ}
      → count ≡ length rows + k
      → IsValid chan
      → chan.sequence_number ≡ seq
      → pending s ≡ wire ++ rest
      → length wire ≤ fuel
      → ((chan' : Channel) (s' : S)
          → IsValid chan'
          → chan'.sequence_number ≡ last
          → pending s' ≡ rest
          → HasFetched behind left ended held packet number (fetch_loop io fuel k rs info chan' s'))
      → HasFetched
          (rows ++ behind)
          left
          ended
          held
          packet
          number
          (fetch_loop io fuel count rs info chan s)
  unfolding fetch_loop
  fetch_rows rs open_ done count k info chan s rest {behind} {left} {ended} {held} {packet} {number}
        e v num p l go =
      subst
        (λ c. HasFetched behind left ended held packet number (fetch_loop io fuel c rs info chan s))
        {x = k} {y = count} (omega arith) (go chan s v num p)
  fetch_rows rs open_ (next r is_row packets sent) zero k info chan s rest e v num p l go =
      absurd (omega arith)
  fetch_rows rs open_ (next {seq} r {wire = w} {wires = ws} is_row packets sent) (suc count) k info
        chan s rest e v num p l go =
      let got =
        read-Packets io pending law chan r.buffer w (ws ++ rest) s fuel v
          (subst (λ n. Packets n r.buffer w) (sym num) packets) (p ∙ append_assoc w ws rest)
          (omega (arith, length-append w ws)) in
      let m = row_of rs r info in
      let reads =
        message_read rs info chan s r.buffer w (ws ++ rest) m got (process_row rs r info is_row) in
      add_row rs r
        (fetch_rows rs open_ sent count k info got.out.channel got.out.stream rest (omega arith)
          got.valid (got.numbered ∙ ap (λ n. number_after n r.buffer) num) got.still_pending
          (omega (arith, length-append w ws)) go)
        (fetch_step count rs info chan s m got.out reads
          ∙ rw (after_row rs r info open_, got.appended) refl)

  fetch_many_open :
      (count : ℕ) (rs : Resultset) (chan : Channel) (s : S)
      → rs.eof_received ≡ false
      → fetch_many io fuel count rs chan s ≡ fetch_loop io fuel count rs [] chan s
  unfolding fetch_many complete
  fetch_many_open count rs chan s e =
      ap
        (λ b.
          if b
          then some (record {
            rows = [];
            code = success;
            info = [];
            resultset = rs;
            channel = chan;
            stream = s;
          })
          else fetch_loop io fuel count rs [] chan s)
        e

  fetched_open :
      (count : ℕ) (rs : Resultset) (chan : Channel) (s : S) {rows : List OwningRow} {rest : List ℕ}
      {ended held : Bool} {packet : OkPacket} {number : ℕ}
      → rs.eof_received ≡ false
      → HasFetched
          (rows ++ [])
          rest
          ended
          held
          packet
          number
          (fetch_loop io fuel count rs [] chan s)
      → HasFetched rows rest ended held packet number (fetch_many io fuel count rs chan s)
  fetched_open count rs chan s {rows} {rest} {ended} {held} {packet} {number} e f =
      subst (λ l. HasFetched l rest ended held packet number (fetch_many io fuel count rs chan s))
        (append-nil rows)
        (subst (HasFetched (rows ++ []) rest ended held packet number)
          (sym (fetch_many_open count rs chan s e)) f)

-- With at least the rows to come that are asked for, `fetch_many` returns just these in order without
-- an error, leaves what is behind them, and the resultset is not complete.
pub fetch_many_some :
    {S : Type 0} (io : Stream S) (pending : S → List ℕ) (law : Delivers io pending) (fuel : ℕ)
    (rs : Resultset) (rows : List OwningRow) (chan : Channel) (s : S) (wire rest : List ℕ)
    (last : ℕ)
    → complete rs ≡ false
    → RowsSent rs chan.sequence_number rows wire last
    → IsValid chan
    → pending s ≡ wire ++ rest
    → length wire ≤ fuel
    → HasFetched io pending law fuel rows rest false rs.info_held rs.ok_packet last
        (fetch_many io fuel (length rows) rs chan s)
unfolding complete fetch_loop
fetch_many_some io pending law fuel rs rows chan s wire rest last open_ sent v p l =
    fetched_open io pending law fuel (length rows) rs chan s open_ (
      fetch_rows io pending law fuel rs open_ sent (length rows) 0 [] chan s rest (omega arith) v
        refl p l
        (λ chan' s' v' num' p'. record {
          out = record {
            rows = [];
            code = success;
            info = [];
            resultset = rs;
            channel = chan';
            stream = s';
          };
          returns = refl;
          succeeds = refl;
          fetched = refl;
          still_pending = p';
          completed = open_;
          has_packet = refl;
          has_info = refl;
          valid = v';
          numbered = num';
        }))
