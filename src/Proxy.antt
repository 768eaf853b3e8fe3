-- ===== src/Proxy.antt =====
-- src/proxy/models.rs: protocols, and the proxy that passes from fetch to validation to output.
pub mod Address
pub mod Protocol
pub mod Float
pub mod Model
pub mod Text
pub mod Sample
