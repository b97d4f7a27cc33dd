-- ===== src/School.antt =====
-- The school's side of the program: who may do what, and the groups of a subject.
pub mod Store
pub mod Access
pub mod Download
pub mod Membership
pub mod Group
pub mod Uploads
pub mod Handin
pub mod Submit
pub mod Review
pub mod Grading
pub mod Spending
pub mod Deadline
mod Tests
pub mod Permissions
