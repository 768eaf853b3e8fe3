-- ===== src/Fetcher/Cache.antt =====
-- src/fetcher/cache.rs: the cache of parsed rows, on disk and in the memo of the process.
pub mod Rows
pub mod Store
pub mod Orphans
