-- ===== src/Imap.antt =====
-- src/imap: the messages of a mailbox, the connection that is kept, and the sync.
pub mod Message
pub mod Connection
pub mod Kept
pub mod Poll
pub mod Polled
pub mod Smtp
mod Tests
