-- ===== src/Scheduled.antt =====
-- Scheduled sending (crates/mairust-core/src/scheduled).
pub mod RateLimiter
pub mod Quota
pub mod Counts
pub mod Windows
pub mod Template
pub mod Tokens
mod Examples
