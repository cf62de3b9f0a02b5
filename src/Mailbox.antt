-- ===== src/Mailbox.antt =====
-- Minix_Mailbox_implementation/Mailbox_SourceCode/servers/pm: mailboxes in the process manager.
pub mod State
pub mod Lookup
pub mod Nodes
pub mod Fetch
pub mod Blocked
pub mod Open
pub mod Close
pub mod Deposit
pub mod Retrieve
pub mod Dispatch
pub mod Library
mod Tests
