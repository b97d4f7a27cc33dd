-- ===== src/Deletion/Store.antt =====
-- The tables that the deletion of an account reads and writes (backend/prisma/schema.prisma), with
-- the columns that it uses, and the audit log that it leaves. The texts of audit entries are left
-- out.
use proj_track_official.Prelude.{ℕ, Bool, Option, List, [], ◌∷◌, ◌++◌}
use proj_track_official.Prelude.Text.{Text}
use proj_track_official.Prelude.Outcome.{Handler, modify}
use proj_track_official.Auth.User.{UserStatus}

-- `DataDeletionRequestStatus`
pub data RequestStatus : Type 0 where
  pending approved denied cancelled : RequestStatus

-- `DataDeletionExecutionStatus`, the values that the service writes
pub data ExecutionStatus : Type 0 where
  dry_run_pending dry_run_started dry_run_completed : ExecutionStatus
  backup_verified execution_started execution_completed execution_failed : ExecutionStatus

pub record Request : Type 0 where
  pub id : Text
  pub requester_id : Text
  pub status : RequestStatus
  pub reason : Option Text
  pub confirmation_phrase : Text
  pub reviewed_by : Option Text
  pub reviewed_at : Option ℕ
  pub review_note : Option Text

-- What a plan counts and an execution touches.
pub data Category : Type 0 where
  email_job notification pending_upload enrollment group_member : Category
  subject_teacher student_profile teacher_profile : Category
  auth_session account_action_token user_record : Category

-- `executionPlanJson` and `executionResultJson`: the counts, in the order written.
abbrev pub Counts : Type 0
Counts = List (Category × ℕ)

pub record Execution : Type 0 where
  pub id : Text
  pub request_id : Text
  pub status : ExecutionStatus
  pub dry_run : Bool
  pub backup_run_id : Option Text
  pub backup_verified_at : Option ℕ
  pub backup_verification_ref : Option Text
  pub started_at : Option ℕ
  pub completed_at : Option ℕ
  pub failed : Bool
  pub plan : Counts
  pub result : Counts
  pub executed_by : Option Text

pub record Backup : Type 0 where
  pub id : Text
  pub is_completed : Bool
  pub deleted_at : Option ℕ

pub record Person : Type 0 where
  pub id : Text
  pub email : Text
  pub password_hash : Option Text
  pub first_name : Text
  pub last_name : Text
  pub phone : Option Text
  pub office : Option Text
  pub avatar : Option Text
  pub status : UserStatus

-- A row that belongs to somebody: by the address for a mail job, by the student profile for an
-- enrollment, by the account for the others.
pub record Owned : Type 0 where
  pub id : Text
  pub owner : Text

pub record Subject : Type 0 where
  pub id : Text
  pub teacher_id : Option Text

pub data AuditAction : Type 0 where
  requested request_cancelled request_approved request_denied : AuditAction
  dry_run_planned dry_run_done backup_confirmed manual_confirmed : AuditAction
  blocked completed not_completed : AuditAction

pub record Entry : Type 0 where
  pub actor : Option Text
  pub action : AuditAction
  pub entity : Text

pub record Store : Type 0 where
  pub requests : List Request
  pub executions : List Execution
  pub backups : List Backup
  pub people : List Person
  pub email_jobs : List Owned
  pub notifications : List Owned
  pub pending_uploads : List Owned
  pub student_profiles : List Owned
  pub teacher_profiles : List Owned
  pub enrollments : List Owned
  pub group_members : List Owned
  pub subjects : List Subject
  pub auth_sessions : List Owned
  pub account_action_tokens : List Owned
  pub audit : List Entry

-- `auditLogs.record`
abbrev pub record_audit : Option Text → AuditAction → Text → Handler Store (Unit {0})
record_audit actor action entity = modify (λ s. record s {
  audit = s.audit ++ record { actor = actor; action = action; entity = entity } ∷ [];
})
