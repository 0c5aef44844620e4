-- ===== src/Channel/Framing.antt =====
-- When the packets that `write` sends are a message of the protocol, and when they are not.
use mysql_asio.Base.{
  ℕ, ◌+◌, ◌*◌, ◌/◌, ◌%◌, ◌<◌, ◌≡◌, ◌≢◌, ◌⊎◌, inr, List, ◌++◌, length, length-append, arith,
}
use mysql_asio.Channel.{max_packet_size}
use mysql_asio.Channel.Header.{header_bytes, length-header_bytes}
use mysql_asio.Channel.Packets.{Packets, last, more}
use mysql_asio.Channel.Writing.{Framed, whole, split}

-- The message is empty, or its last packet is not full.
abbrev pub HasShortEnd : List ℕ → Type 0
HasShortEnd payload = (length payload ≡ 0) ⊎ (length payload % max_packet_size ≢ 0)

pub Framed-Packets :
    {seq : ℕ} {payload wire : List ℕ}
    → Framed seq payload wire
    → HasShortEnd payload
    → Packets seq payload wire
Framed-Packets (whole body fits) h = last body (omega arith)
Framed-Packets (split chunk {payload = l} full some_left f) h =
    more chunk full (Framed-Packets f (inr (omega (arith, length-append chunk l))))

-- The protocol needs a packet more than the full ones.
length-Packets :
    {seq : ℕ} {payload wire : List ℕ}
    → Packets seq payload wire
    → length wire ≡ length payload + 4 * (length payload / max_packet_size + 1)
length-Packets {seq} (last body small) = omega (
  arith,
  length-append (header_bytes (length body) seq) body,
  length-header_bytes (length body) seq,
)
length-Packets {seq} (more chunk {payload = l} {wire = w} full p) = omega (
  arith,
  length-append (header_bytes max_packet_size seq) (chunk ++ w),
  length-append chunk w,
  length-append chunk l,
  length-header_bytes max_packet_size seq,
  length-Packets p,
)

length-Framed_full :
    {seq : ℕ} {payload wire : List ℕ}
    → Framed seq payload wire
    → 0 < length payload
    → length payload % max_packet_size ≡ 0
    → length wire ≡ length payload + 4 * (length payload / max_packet_size)
length-Framed_full {seq} (whole body fits) h e = omega (
  arith,
  length-append (header_bytes (length body) seq) body,
  length-header_bytes (length body) seq,
)
length-Framed_full {seq} (split chunk {payload = l} {wire = w} full some_left f) h e = omega (
  arith,
  length-append (header_bytes max_packet_size seq) (chunk ++ w),
  length-append chunk w,
  length-append chunk l,
  length-header_bytes max_packet_size seq,
  length-Framed_full f some_left (omega (arith, length-append chunk l)),
)

-- What is sent for a message of one or more full packets is no message of the protocol.
pub Framed-not_Packets :
    {seq : ℕ} {payload wire : List ℕ}
    → Framed seq payload wire
    → 0 < length payload
    → length payload % max_packet_size ≡ 0
    → ¬ Packets seq payload wire
Framed-not_Packets f h e p = omega (arith, length-Framed_full f h e, length-Packets p)
