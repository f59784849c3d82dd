-- ===== src/Outbox.antt =====
pub mod Model
pub mod Enqueue
pub mod Publish
pub mod Changes
mod Tests
