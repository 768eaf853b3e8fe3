-- ===== src/Negotiators/Socks4.antt =====
-- src/negotiators/socks4.rs: the SOCKS4 and SOCKS4a handshake.
pub mod Packet
pub mod Handshake
pub mod Request
pub mod Accepted
mod Tests
