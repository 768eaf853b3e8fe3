-- ===== src/Negotiators.antt =====
-- src/negotiators: the handshakes with a proxy, over the bytes that each side sends.
pub mod Wire
pub mod Buffer
pub mod Head
pub mod Https
pub mod Socks4
pub mod Socks5
mod Sample
