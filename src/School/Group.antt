-- ===== src/School/Group.antt =====
-- The groups of a subject: backend/src/repositories/subject.repository.ts,
-- backend/src/subjects/subject-groups.service.ts and backend/src/admin/admin-groups.service.ts.
pub mod Rows
pub mod Checks
pub mod Create
pub mod Join
pub mod Manage
pub mod Handlers
pub mod Seats
pub mod Single
pub mod InviteCode
pub mod Attempts
pub mod Minimum
pub mod Leading
