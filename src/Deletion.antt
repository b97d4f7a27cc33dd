-- ===== src/Deletion.antt =====
-- The deletion of an account's data: backend/src/data-deletion.
pub mod Store
pub mod Request
pub mod Erasure
pub mod Execution
mod Tests
