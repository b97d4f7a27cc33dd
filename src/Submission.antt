-- ===== src/Submission.antt =====
-- The submission workflow of backend/src/submissions.
pub mod Lifecycle
mod Tests
