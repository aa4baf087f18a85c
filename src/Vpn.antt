-- ===== src/Vpn.antt =====
-- vpn: the messages of its protocol, how server and client take them from a stream, and the sockets'
-- buffers.
pub mod Message
pub mod Framing
pub mod Receive
pub mod Relay
pub mod Delivered
pub mod Channels
pub mod Clients
mod Tests
