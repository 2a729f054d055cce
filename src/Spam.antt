-- ===== src/Spam.antt =====
-- The spam filter (crates/mairust-core/src/spam).
pub mod Types
pub mod Headers
pub mod Defaults
pub mod Rules
pub mod Filter
pub mod Disabling
pub mod Folding
mod Examples
