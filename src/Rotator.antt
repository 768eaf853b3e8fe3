-- ===== src/Rotator.antt =====
-- src/rotator: the local endpoint that rotates over validated proxies.
pub mod Pool
pub mod Server
