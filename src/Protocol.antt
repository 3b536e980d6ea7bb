-- ===== src/Protocol.antt =====
-- tunnelprotocol: the messages of the tunnel and capture sockets, their validation and their codec.
pub mod Message
pub mod Text
pub mod Validation
pub mod Codec
