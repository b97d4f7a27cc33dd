-- ===== src/Deletion/Erasure.antt =====
-- The destructive part of an execution and the plan that foretells it:
-- backend/src/data-deletion/data-deletion-execution.service.ts, `attemptExecution` from its `try`, the
-- private methods that it calls, and `buildExecutionPlan`. A statement that the database refuses is
-- a value of `Faults`; failures of reads are left out.
pub mod Laws
use proj_track_official.Prelude.{
  ℕ, Bool, true, false, Option, none, some, List, [], ◌∷◌, ◌++◌, if◌then◌else◌, find, count,
  is_some,
}
use proj_track_official.Prelude.Text.{Text, codes, text_eq, option_eq}
use proj_track_official.Prelude.Table.{update_one, update_many, delete_many}
use proj_track_official.Prelude.Outcome.{
  internal, Outcome, done, thrown, Handler, get, modify, return, ◌>>=◌, ◌>>◌,
}
use Prim.Native.String.{String}
use proj_track_official.Auth.User.{UserStatus}
use proj_track_official.Deletion.Store.{
  Category, email_job, notification, pending_upload, enrollment, group_member, subject_teacher,
  student_profile, teacher_profile, auth_session, account_action_token, user_record, Counts, Person,
  Owned, Subject, Store,
}

-- The message of the error with which the statement on a table fails, if it does.
abbrev pub Faults : Type 0
Faults = Category → Option String

-- The tables, and `results` so far.
pub record Work : Type 0 where
  pub rows : Store
  pub results : Counts

abbrev pub belongs_to : Text → Owned → Bool
belongs_to owner r = text_eq r.owner owner

abbrev pub is_taught_by : Text → Subject → Bool
is_taught_by teacher subject = option_eq subject.teacher_id (some teacher)

abbrev pub untaught : Subject → Subject
untaught subject = record subject { teacher_id = none }

abbrev pub note : Category → ℕ → Handler Work (Unit {0})
note c n = modify (λ w. record w { results = w.results ++ (c, n) ∷ [] })

-- A statement and the count that it answers.
abbrev pub statement : Faults → Category → (Store → ℕ) → (Store → Store) → Handler Work (Unit {0})
statement faults c number change w = elim (faults c) [
  | some message ↦ thrown (internal message) w
  | none ↦ done tt (record { rows = change w.rows; results = w.results ++ (c, number w.rows) ∷ [] })
]

module _ (faults : Faults) where
  -- `executeEmailJobDeletion`
  abbrev pub erase_email_jobs : Text → Handler Work (Unit {0})
  erase_email_jobs email =
      statement faults email_job (λ s. count (belongs_to email) s.email_jobs)
        (λ s. record s { email_jobs = delete_many (belongs_to email) s.email_jobs })

  -- `executeNotificationDeletion`
  abbrev pub erase_notifications : Text → Handler Work (Unit {0})
  erase_notifications user =
      statement faults notification (λ s. count (belongs_to user) s.notifications)
        (λ s. record s { notifications = delete_many (belongs_to user) s.notifications })

  -- `executePendingUploadDeletion`
  abbrev pub erase_pending_uploads : Text → Handler Work (Unit {0})
  erase_pending_uploads user =
      statement faults pending_upload (λ s. count (belongs_to user) s.pending_uploads)
        (λ s. record s { pending_uploads = delete_many (belongs_to user) s.pending_uploads })

  -- `executeEnrollmentDeletion`, where there is a student profile
  abbrev pub erase_enrollments : Option Owned → Handler Work (Unit {0})
  erase_enrollments none = note enrollment 0
  erase_enrollments (some profile) =
      statement faults enrollment (λ s. count (belongs_to profile.id) s.enrollments)
        (λ s. record s { enrollments = delete_many (belongs_to profile.id) s.enrollments })

  -- `executeGroupMemberDeletion`
  abbrev pub erase_group_members : Text → Handler Work (Unit {0})
  erase_group_members user =
      statement faults group_member (λ s. count (belongs_to user) s.group_members)
        (λ s. record s { group_members = delete_many (belongs_to user) s.group_members })

  -- `executeSubjectTeacherNullification`, where there is a teacher profile
  abbrev pub clear_subjects : Option Owned → Handler Work (Unit {0})
  clear_subjects none = return tt
  clear_subjects (some profile) =
      statement faults subject_teacher (λ s. count (is_taught_by profile.id) s.subjects)
        (λ s. record s { subjects = update_many (is_taught_by profile.id) untaught s.subjects })

  -- `executeStudentProfileDeletion`, where there is one; an account has at most one.
  abbrev pub erase_student_profile : Text → Option Owned → Handler Work (Unit {0})
  erase_student_profile user none = note student_profile 0
  erase_student_profile user (some profile) =
      statement faults student_profile (λ s. 1)
        (λ s. record s { student_profiles = delete_many (belongs_to user) s.student_profiles })

  -- `executeTeacherProfileDeletion`, likewise
  abbrev pub erase_teacher_profile : Text → Option Owned → Handler Work (Unit {0})
  erase_teacher_profile user none = note teacher_profile 0
  erase_teacher_profile user (some profile) =
      statement faults teacher_profile (λ s. 1)
        (λ s. record s { teacher_profiles = delete_many (belongs_to user) s.teacher_profiles })

  -- `executeAuthSessionDeletion`
  abbrev pub erase_auth_sessions : Text → Handler Work (Unit {0})
  erase_auth_sessions user =
      statement faults auth_session (λ s. count (belongs_to user) s.auth_sessions)
        (λ s. record s { auth_sessions = delete_many (belongs_to user) s.auth_sessions })

  -- `executeAccountActionTokenDeletion`
  abbrev pub erase_account_action_tokens : Text → Handler Work (Unit {0})
  erase_account_action_tokens user =
      statement faults account_action_token (λ s. count (belongs_to user) s.account_action_tokens)
        (λ s. record s {
          account_action_tokens = delete_many (belongs_to user) s.account_action_tokens;
        })

abbrev pub anonymized : Person → Person
anonymized p = record p {
  email = codes "deleted-" ++ p.id ++ codes "@anonymized.invalid";
  password_hash = none;
  first_name = codes "[Deleted]";
  last_name = codes "[Deleted]";
  phone = none;
  office = none;
  avatar = none;
  status = UserStatus.archived;
}

-- `executeUserAnonymization`
abbrev pub anonymize : Faults → Text → Handler Work (Unit {0})
anonymize faults user =
    statement faults user_record (λ s. 1)
      (λ s. record s { people = update_one (λ p. text_eq p.id user) anonymized s.people })

-- The steps 1 to 12 of `attemptExecution`.
unfoldable pub erase : Faults → Person → Handler Work (Unit {0})
erase faults user = do
  erase_email_jobs faults user.email
  erase_notifications faults user.id
  erase_pending_uploads faults user.id
  w ← get
  let student = find (belongs_to user.id) w.rows.student_profiles
  let teacher = find (belongs_to user.id) w.rows.teacher_profiles
  erase_enrollments faults student
  erase_group_members faults user.id
  clear_subjects faults teacher
  erase_student_profile faults user.id student
  erase_teacher_profile faults user.id teacher
  erase_auth_sessions faults user.id
  erase_account_action_tokens faults user.id
  anonymize faults user.id

abbrev pub profile_count : Option Owned → ℕ
profile_count profile = if is_some profile then 1 else 0

-- `buildExecutionPlan`: the categories that an execution touches, with their counts; those that are
-- retained are left out.
unfoldable pub execution_plan : Person → Store → Counts
execution_plan user s =
    let student = find (belongs_to user.id) s.student_profiles in
    let teacher = find (belongs_to user.id) s.teacher_profiles in
    (user_record, 1)
    ∷ (student_profile, profile_count student)
    ∷ (teacher_profile, profile_count teacher)
    ∷ (enrollment, enrollments student)
    ∷ (subject_teacher, subjects teacher)
    ∷ (group_member, count (belongs_to user.id) s.group_members)
    ∷ (pending_upload, count (belongs_to user.id) s.pending_uploads)
    ∷ (notification, count (belongs_to user.id) s.notifications)
    ∷ (email_job, count (belongs_to user.email) s.email_jobs)
    ∷ (auth_session, count (belongs_to user.id) s.auth_sessions)
    ∷ (account_action_token, count (belongs_to user.id) s.account_action_tokens)
    ∷ []
  where
    enrollments : Option Owned → ℕ
    enrollments none = 0
    enrollments (some profile) = count (belongs_to profile.id) s.enrollments

    subjects : Option Owned → ℕ
    subjects none = 0
    subjects (some profile) = count (is_taught_by profile.id) s.subjects
