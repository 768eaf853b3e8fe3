-- ===== src/Fetcher.antt =====
-- src/fetcher: what the fetcher keeps between a scrape and a validation.
pub mod Dedup
pub mod Cache
