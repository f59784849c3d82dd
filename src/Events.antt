-- ===== src/Events.antt =====
pub mod Model
pub mod Upsert
pub mod Query
pub mod Router
mod Tests
