-- ===== src/Backup.antt =====
-- The backups: backend/src/backups.
pub mod Retention
mod Tests
