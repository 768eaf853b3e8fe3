-- ===== src/Geolookup.antt =====
-- src/geolookup/ip_type.rs: `IpType::classify`, by the number and the name of a network.
pub mod IpType
