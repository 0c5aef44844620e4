-- ===== src/Messages.antt =====
-- include/boost/mysql/detail/protocol: the messages of the protocol.
pub mod Common
pub mod Handshake
pub mod Statement
pub mod Sent
