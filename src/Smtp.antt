-- ===== src/Smtp.antt =====
-- The SMTP server (crates/mairust-core/src/smtp).
pub mod Types
pub mod Auth
pub mod Parse
pub mod Receive
pub mod Delivery
pub mod Dialogue
pub mod AuthCommand
pub mod Command
pub mod Run
pub mod AuthKeeps
pub mod Guards
pub mod Loop
pub mod Stored
pub mod Relay
pub mod Login
pub mod Identity
pub mod Submission
pub mod Transfer
pub mod Accepted
pub mod Faults
pub mod Connection
pub mod Addresses
mod Examples
mod MessageExamples
