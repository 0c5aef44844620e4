-- ===== src/Lib.antt =====
-- mysql-asio: a MySQL client library over Boost.Asio. These modules model its protocol code: how
-- messages are put into bytes and packets, and what the functions that talk to a server do with them.
--
-- The parts, from the bottom up, with the sources' paths under include/boost/mysql of the repository:
-- - Base: names of the libraries, lists and Boolean tests over the native numbers, integers as
--   little-endian bytes (Base.Bytes) and in two's complement (Base.Int), and error codes (Base.Error:
--   errc.hpp, error.hpp, impl/error.hpp).
-- - Serialization: detail/protocol/serialization.hpp with its impl files, protocol_types.hpp and the
--   two contexts. The variadic `serialize`, `deserialize` and `get_size` are functions of a list of
--   field types (`FieldType`); Serialization.Message has whole messages.
-- - Capabilities: detail/protocol/capabilities.hpp.
-- - Messages: common_messages.hpp, query_messages.hpp, handshake_messages.hpp and
--   prepared_statement_messages.hpp of detail/protocol with their impl files: one record for each
--   packet, one function for each `deserialize_`, and `SerializationTraits` for what is
--   sent; Messages.Sent has the messages that the client sends.
-- - NullBitmap: detail/protocol/null_bitmap_traits.hpp, the bits of NULL fields.
-- - Metadata: metadata.hpp and the protocol's types of detail/protocol/constants.hpp; Metadata.Types:
--   field_type.hpp and impl/metadata.ipp. The mutable `field_type_` is an argument of `field_type`.
-- - Values: value.hpp, and values and rows in the binary protocol (Values.Binary and Values.Row:
--   detail/protocol/impl/binary_serialization.ipp and binary_deserialization.ipp). The date library is
--   the parameter `Calendar`, and `IsLawful` is what the code relies on in it. Values.Conversions has
--   `value::get_optional`.
-- - Channel: detail/protocol/channel.hpp and impl/channel.hpp. The members of the class are the record
--   `Channel`; `read` and `write` are loops over a `Stream`, the record of Boost.Asio's operations.
--   Channel.Async has `read_op` and `write_op`, as functions from a point and a completion to what is
--   started next.
-- - Resultset: resultset.hpp, impl/resultset.hpp and detail/network_algorithms/impl/read_row.hpp: the
--   fetching of rows over the channel. Resultset.Rows says which bytes carry a resultset, and
--   Resultset.Async has the coroutines of the fetches.
-- - Values.Text: detail/protocol/impl/text_deserialization.ipp, values and rows in the text protocol.
--   `sscanf` and `lexical_cast` are the parameter `TextLibrary`.
-- - Auth: detail/auth, the two authentication plugins and the calculator that chooses one. OpenSSL's
--   digests are the parameter `Digests`.
-- - Algorithms: detail/network_algorithms, over the record `MessageLayer` of the channel's operations.
--   Algorithms.Execute has execute_generic.hpp, execute_query.hpp and execute_statement.hpp,
--   Algorithms.Handshake has handshake.hpp with its processor and the parameters of
--   connection_params.hpp, Algorithms.Prepare has prepare_statement.hpp and close_statement.hpp,
--   and Algorithms.Connection has connect.hpp, quit_connection.hpp and close_connection.hpp.
--   Algorithms.Async has the coroutines, but for that of preparing, as functions from a point and a
--   completion to what is started next. Algorithms.Dialogue says what client and server send each other (`Follows`), and
--   Algorithms.Layer makes a layer of the channel's functions.
-- - Client: impl/connection.hpp, impl/prepared_statement.hpp and the rest of impl/resultset.hpp, the
--   members that a program calls, with codes, with exceptions and asynchronous.
--
-- How they interact: a client serializes a message from `Messages` by the functions of
-- `Serialization`, and sends it by `Channel.write`, which frames it in packets whose header is the
-- `PacketHeader` of Messages.Common; answers come back through `Channel.read`. An algorithm is a
-- sequence of such writes and reads, with what it makes of each answer.
--
-- Bytes are natural numbers and buffers are lists of them; an integer of w bits keeps its wrap-around
-- (`% 2 ^ w`). A `size_t` has 64 bits. The loop of `read` takes fuel; the packets' bytes are enough of
-- it, since each round takes a header of four bytes. `write` has one round more than the message has
-- bytes, and each round moves at least one. The handshake's loop takes fuel too, one for each answer of
-- the server, which can ask for data for ever; a coroutine takes one for each call.
--
-- A view is the bytes that it showed when it was made. Of `ok_packet_.info`, which can outlive its
-- buffer, the resultset's `info_held` says whether the buffer is still there.
--
-- Not modelled: the printing of values and the texts of errors, for users; the templates of Boost.Asio,
-- OpenSSL, the C library and the date library, which the sources only call; and
-- `async_prepare_statement`, whose operation calls a member that does not exist and cannot be
-- instantiated.
pub mod Base
pub mod Serialization
pub mod Capabilities
pub mod Messages
pub mod Channel
pub mod NullBitmap
pub mod Metadata
pub mod Values
pub mod Resultset
pub mod Auth
pub mod Algorithms
pub mod Client
