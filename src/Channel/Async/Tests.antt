-- ===== src/Channel/Async/Tests.antt =====
-- Runs of `read_op` and `write_op` on a stream in memory.
use mysql_asio.Base.{
  ℕ, suc, ◌≡◌, refl, inl, inr, Bool-cases, List, [], ◌∷◌, some, leb, length, length-take, tests,
}
use mysql_asio.Base.Error.{ErrorCode}
use mathlib.Core.Option
use mysql_asio.Base.Bytes.{from_le}
use mysql_asio.Serialization.{deserialize, deserialize_fixed_int}
use mysql_asio.Serialization.Message.{resize}
use mysql_asio.Messages.Common.{deserialize_packet_header}
use mysql_asio.Channel.{
  Channel, ReadOutcome, new_channel, read_impl, process_header_read, read, write,
}
use mysql_asio.Channel.Memory.{Memory, memory_io}
use mysql_asio.Channel.Async.{run_read, read_op, async_read, async_write}
use mysql_asio.Channel.Async.Laws.{CompletesFully, twice, async-eq}

pub memory_completes : CompletesFully memory_io
memory_completes = record {
  read_success = λ tls size s h. elim (Bool-cases (leb size (length s.incoming))) [
    | inl e ↦ rw e refl
    | inr e ↦ let h' = rw e at h in cc
  ];
  read_fills = λ tls size s h. elim (Bool-cases (leb size (length s.incoming))) [
    | inl e ↦ rw e (omega (tests, e, length-take size s.incoming))
    | inr e ↦ let h' = rw e at h in cc
  ];
  write_success = λ tls bytes s h. refl;
}

-- The first packet has the wrong number.
abbrev mismatched : Memory
mismatched = record { incoming = 2 ∷ 0 ∷ 0 ∷ 5 ∷ 7 ∷ 8 ∷ []; outgoing = [] }

async-eq_example :
    ((fuel : ℕ)
      → async_read memory_io (suc (twice fuel)) new_channel mismatched
        ≡ read memory_io fuel new_channel mismatched)
    × ((buffer : List ℕ)
        → (r : ErrorCode × Channel × Memory) × (async_write memory_io buffer new_channel mismatched
            ≡ some r)
          × (write memory_io buffer new_channel mismatched ≡ some r))
async-eq_example = async-eq memory_io memory_completes new_channel mismatched

abbrev message : Memory
message = record { incoming = 2 ∷ 0 ∷ 0 ∷ 0 ∷ 7 ∷ 8 ∷ []; outgoing = [] }

received :
    Option.map (λ (o : ReadOutcome Memory). o.buffer) (async_read memory_io 3 new_channel message)
    ≡ some (7 ∷ 8 ∷ [])
unfolding async_read run_read read_op read_impl process_header_read deserialize_packet_header
    deserialize deserialize_fixed_int from_le resize
received = refl
