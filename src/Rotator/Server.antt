-- ===== src/Rotator/Server.antt =====
-- src/rotator/server.rs: one connection of the rotating proxy server.
pub mod Head
pub mod Request
pub mod Authority
pub mod Upstream
pub mod Connection
pub mod Settled
pub mod Served
mod Tests
