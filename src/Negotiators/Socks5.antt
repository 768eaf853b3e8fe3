-- ===== src/Negotiators/Socks5.antt =====
-- src/negotiators/socks5.rs: the SOCKS5 handshake, with or without a user name.
pub mod Packet
pub mod Handshake
pub mod Request
pub mod Reply
pub mod Accepted
pub mod Completed
mod Tests
