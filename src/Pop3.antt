-- ===== src/Pop3.antt =====
-- The POP3 server (crates/mairust-core/src/pop3).
pub mod Types
pub mod Session
pub mod Parse
pub mod Response
pub mod Entry
pub mod Command
pub mod Run
pub mod Marks
pub mod Maildrop
pub mod Loops
pub mod Keeps
pub mod Access
pub mod Deletion
pub mod Stuffing
pub mod Retrieval
pub mod Words
pub mod Ownership
mod Examples
