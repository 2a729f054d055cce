-- ===== src/Imap.antt =====
-- The IMAP server (crates/mairust-core/src/imap).
pub mod Types
pub mod Outcome
pub mod Session
pub mod Sequence
pub mod Items
pub mod Words
pub mod SearchKeys
pub mod Parser
pub mod Response
pub mod Envelope
pub mod Rows
pub mod Mailboxes
pub mod Flags
pub mod Moves
pub mod Fetch
pub mod Append
pub mod Command
pub mod Run
pub mod Client
pub mod Expunging
pub mod Moving
pub mod Stored
pub mod Ranges
pub mod Quoting
pub mod Steps
pub mod Refines
pub mod RefinesMail
pub mod Connection
pub mod Access
pub mod Ownership
pub mod Spared
pub mod Examined
pub mod Lines
pub mod Fuel
pub mod Scanning
mod Examples
