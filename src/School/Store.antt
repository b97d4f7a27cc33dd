-- ===== src/School/Store.antt =====
-- The tables of subjects, groups and submissions (backend/prisma/schema.prisma), with the columns that
-- the rules use. A column that holds one of a few words is a data type of those the program writes or
-- names; the status of a submission, which is read in many spellings, stays a text.
use proj_track_official.Prelude.{ℕ, Bool, ◌&&◌, Option, List, keep, find}
use proj_track_official.Prelude.Text.{Text, text_eq}
use proj_track_official.Submission.Lifecycle.{EventAction}
use proj_track_official.Auth.User.{User}

pub record StudentProfile : Type 0 where
  pub id : Text
  pub user_id : Text
  pub section_id : Option Text

pub record TeacherProfile : Type 0 where
  pub id : Text
  pub user_id : Text

pub record Subject : Type 0 where
  pub id : Text
  pub teacher_id : Option Text
  pub is_open : Bool
  pub group_enabled : Bool
  pub min_group_size : ℕ
  pub max_group_size : ℕ

pub record Enrollment : Type 0 where
  pub student_id : Text
  pub subject_id : Text
  pub section_id : Option Text

pub data GroupStatus : Type 0 where
  pending active locked closed archived : GroupStatus

pub record Group : Type 0 where
  pub id : Text
  pub subject_id : Text
  pub section_id : Option Text
  pub name : Text
  pub invite_code : Text
  pub leader_id : Option Text
  pub status : GroupStatus

pub data MemberRole : Type 0 where
  leader member : MemberRole

pub data MemberStatus : Type 0 where
  present removed : MemberStatus

pub record Member : Type 0 where
  pub group_id : Text
  pub subject_id : Text
  pub student_id : Text
  pub role : MemberRole
  pub status : MemberStatus

pub record Task : Type 0 where
  pub id : Text
  pub subject_id : Text
  pub title : Text
  pub is_group_task : Bool
  pub is_open : Bool
  pub allow_late : Bool
  pub deadline : Option ℕ
  pub open_at : Option ℕ
  pub due_at : Option ℕ
  pub close_at : Option ℕ
  pub accepted_file_types : List Text
  pub max_file_size_mb : ℕ
  pub external_links_allowed : Bool

pub record Submission : Type 0 where
  pub id : Text
  pub task_id : Text
  pub subject_id : Text
  pub student_id : Option Text
  pub group_id : Option Text
  pub submitted_by : Option Text
  pub title : Text
  pub status : Text
  pub submitted_at : Option ℕ
  pub grade : Option ℕ
  pub feedback : Option Text

pub record File : Type 0 where
  pub id : Text
  pub submission_id : Text
  pub name : Text
  pub size_kb : ℕ
  pub relative_path : Option Text
  pub deleted_at : Option ℕ

pub data UploadStatus : Type 0 where
  waiting consumed expired : UploadStatus

pub record Upload : Type 0 where
  pub id : Text
  pub user_id : Text
  pub storage_key : Text
  pub file_name : Text
  pub size_bytes : ℕ
  pub status : UploadStatus
  pub expires_at : ℕ
  pub consumed_at : Option ℕ
  pub consumed_by : Option Text

-- A row of `submissionEvent`, its details left out.
pub record Event : Type 0 where
  pub submission_id : Text
  pub actor : Option Text
  pub action : EventAction
  pub from_status : Option Text
  pub to_status : Option Text

-- A row of the audit log: the actor's role and id, the action, and the row it was done to.
pub record Audit : Type 0 where
  pub actor_role : Text
  pub actor_id : Option Text
  pub action : Text
  pub entity_id : Text

pub record Store : Type 0 where
  pub users : List User
  pub students : List StudentProfile
  pub teachers : List TeacherProfile
  pub subjects : List Subject
  pub enrollments : List Enrollment
  pub groups : List Group
  pub members : List Member
  pub tasks : List Task
  pub submissions : List Submission
  pub files : List File
  pub uploads : List Upload
  pub events : List Event
  pub audits : List Audit

abbrev pub find_user : Text → Store → Option User
find_user id s = find (λ u. text_eq u.id id) s.users

abbrev pub find_student : Text → Store → Option StudentProfile
find_student user_id s = find (λ p. text_eq p.user_id user_id) s.students

abbrev pub find_teacher : Text → Store → Option TeacherProfile
find_teacher user_id s = find (λ p. text_eq p.user_id user_id) s.teachers

abbrev pub find_subject : Text → Store → Option Subject
find_subject id s = find (λ x. text_eq x.id id) s.subjects

abbrev pub find_enrollment : Text → Text → Store → Option Enrollment
find_enrollment student subject s =
    find (λ e. text_eq e.student_id student && text_eq e.subject_id subject) s.enrollments

abbrev pub find_group : Text → Store → Option Group
find_group id s = find (λ g. text_eq g.id id) s.groups

-- The relation `group.members`.
abbrev pub members_of : Text → Store → List Member
members_of group s = keep (λ m. text_eq m.group_id group) s.members

abbrev pub find_task : Text → Store → Option Task
find_task id s = find (λ x. text_eq x.id id) s.tasks

abbrev pub find_submission : Text → Store → Option Submission
find_submission id s = find (λ x. text_eq x.id id) s.submissions
