-- ===== src/Queue.antt =====
-- The outbound queue (crates/mairust-core/src/queue).
pub mod Manager
pub mod Retry
pub mod Rounds
pub mod Attempts
mod Examples
