-- ===== src/Cli.antt =====
-- src/cli: what the command line decides about the proxies that it prints.
pub mod Quotas
pub mod Requests
