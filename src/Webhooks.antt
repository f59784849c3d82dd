-- ===== src/Webhooks.antt =====
-- The webhook deliveries: the table of src/webhooks, and what the two handlers do with it.
pub mod Model
pub mod Delivery
pub mod Blocks
pub mod Replies
mod Tests
