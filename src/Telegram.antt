-- ===== src/Telegram.antt =====
-- src/telegram: the updates of a bot, their normalisation, the webhook and the polling task.
pub mod Normalize
pub mod Client
pub mod Webhook
pub mod Delivered
pub mod Poll
pub mod Stored
pub mod Polled
mod Tests
