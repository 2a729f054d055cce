-- ===== src/Policy.antt =====
-- The policy engine (crates/mairust-core/src/policy).
pub mod Types
pub mod Operators
pub mod Networks
pub mod Conditions
pub mod Context
pub mod Engine
pub mod Verdict
pub mod Adding
pub mod Gathered
pub mod Order
pub mod Blocks
mod Examples
