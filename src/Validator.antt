-- ===== src/Validator.antt =====
-- src/validator: how a proxy is probed.
pub mod JudgePool
pub mod Judgement
pub mod Probe
pub mod Manager
pub mod Jobs
pub mod Groups
pub mod Work
