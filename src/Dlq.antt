-- ===== src/Dlq.antt =====
pub mod Model
pub mod Backoff
pub mod Record
pub mod Listing
pub mod Retry
pub mod Replay
mod Tests
