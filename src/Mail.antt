-- ===== src/Mail.antt =====
-- The mail queue: backend/src/mail and backend/src/common/constants.
pub mod Job
pub mod Settings
pub mod Limit
pub mod Classify
pub mod Worker
pub mod Queue
pub mod Bulk
pub mod Webhook
mod Tests
