-- ===== src/Jira.antt =====
-- src/jira: the search with its pages, and the normalisation of an issue.
pub mod Search
pub mod Normalize
pub mod Pages
mod Tests
