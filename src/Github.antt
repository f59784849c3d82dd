-- ===== src/Github.antt =====
-- src/github: the items that the API and the webhook deliver, their normalisation, the client, the
-- webhook and the sync of a repository.
pub mod Normalize
pub mod Client
pub mod Trim
pub mod Webhook
pub mod Delivered
pub mod Poll
pub mod Polled
mod Tests
