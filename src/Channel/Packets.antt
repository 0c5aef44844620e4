-- ===== src/Channel/Packets.antt =====
-- The wire format, independently of the code: which bytes are the packets of a message.
use mysql_asio.Base.{ℕ, ◌<◌, ◌≡◌, List, ◌++◌, length}
use mysql_asio.Channel.{max_packet_size, next_number}
use mysql_asio.Channel.Header.{header_bytes}

-- `wire` carries `payload` in packets numbered from `seq` on: full packets, and then one that is
-- not full, possibly empty, which is how the protocol marks the end.
pub data Packets : ℕ → List ℕ → List ℕ → Type 0 where
  last :
      {seq : ℕ} (body : List ℕ)
      → length body < max_packet_size
      → Packets seq body (header_bytes (length body) seq ++ body)
  more :
      {seq : ℕ} (chunk : List ℕ) {payload wire : List ℕ}
      → length chunk ≡ max_packet_size
      → Packets (next_number seq) payload wire
      → Packets seq (chunk ++ payload) (header_bytes max_packet_size seq ++ (chunk ++ wire))
