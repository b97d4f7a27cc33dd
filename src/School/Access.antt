-- ===== src/School/Access.antt =====
-- Who may do what: backend/src/access/access.service.ts and backend/src/access/policies. Every check
-- reads only; it answers the rows that it found, or the exception.
use proj_track_official.Prelude.{
  Bool, true, false, ◌&&◌, ◌||◌, Option, none, some, [], if◌then◌else◌, any,
}
use proj_track_official.Prelude.Text.{Text, text_eq, is_empty, trim, nullish, option_eq}
use proj_track_official.Prelude.Outcome.{Error, unauthorized, forbidden, not_found, Result, ok, err}
use proj_track_official.Prelude.Check.{◌>>=◌, ◌>>◌, require}
use proj_track_official.Auth.User.{User, is_active}
use proj_track_official.School.Store.{
  StudentProfile, TeacherProfile, Subject, Enrollment, MemberStatus, present, removed, Task,
  Submission, Store, find_user, find_student, find_teacher, find_subject, find_enrollment,
  members_of, find_task, find_submission,
}

-- `assertFound`
abbrev pub assert_found : {A : Type 0} → Option A → Error → Result A
assert_found none e = err e
assert_found (some a) e = ok a

-- `normalizeId`; the exception names the identifier.
unfoldable pub normalize_id : Option Text → Error → Result Text
normalize_id value e = let id = trim (nullish value []) in if is_empty id then err e else ok id

-- `requireActiveUser`
unfoldable pub require_active_user : Option Text → Store → Result User
unfolding normalize_id
require_active_user user_id s = do
  id ← normalize_id user_id (unauthorized "Authenticated user is required.")
  user ← assert_found (find_user id s) (unauthorized "User session is no longer active.")
  require (is_active user.status) (unauthorized "User session is no longer active.")
  ok user

-- `requireStudentProfile`
unfoldable pub require_student_profile : Option Text → Store → Result StudentProfile
unfolding normalize_id
require_student_profile user_id s = do
  id ← normalize_id user_id (unauthorized "Student user is required.")
  assert_found (find_student id s) (forbidden "Student profile is required for this action.")

-- `requireTeacherProfile`
unfoldable pub require_teacher_profile : Option Text → Store → Result TeacherProfile
unfolding normalize_id
require_teacher_profile user_id s = do
  id ← normalize_id user_id (unauthorized "Teacher user is required.")
  assert_found (find_teacher id s) (forbidden "Teacher profile is required for this action.")

pub record Enrolled : Type 0 where
  pub student : StudentProfile
  pub subject : Subject
  pub enrollment : Enrollment

-- `requireStudentEnrolledInSubject`
unfoldable pub require_student_enrolled : Option Text → Text → Store → Result Enrolled
unfolding require_student_profile normalize_id
require_student_enrolled user_id subject_id s = do
  student ← require_student_profile user_id s
  id ← normalize_id (some subject_id) (unauthorized "Subject is required.")
  subject ← assert_found (find_subject id s) (not_found "Subject not found.")
  enrollment ←
      assert_found (find_enrollment student.id subject.id s)
        (forbidden "You do not have access to this subject.")
  ok (record { student = student; subject = subject; enrollment = enrollment })

-- `String(subject.teacherId ?? '') === String(teacher.id)`
abbrev pub teaches : TeacherProfile → Subject → Bool
teaches teacher subject = text_eq (nullish subject.teacher_id []) teacher.id

-- `requireTeacherOwnsSubject`
unfoldable pub require_teacher_owns_subject :
    Option Text → Text → Store → Result (TeacherProfile × Subject)
unfolding require_teacher_profile normalize_id
require_teacher_owns_subject user_id subject_id s = do
  teacher ← require_teacher_profile user_id s
  id ← normalize_id (some subject_id) (unauthorized "Subject is required.")
  subject ← assert_found (find_subject id s) (not_found "Subject not found.")
  require (teaches teacher subject) (forbidden "You do not have access to this subject.")
  ok (teacher, subject)

-- `requireTeacherOwnsActivity`
unfoldable pub require_teacher_owns_activity :
    Option Text → Text → Text → Store → Result (TeacherProfile × Subject × Task)
unfolding require_teacher_owns_subject normalize_id
require_teacher_owns_activity user_id subject_id activity_id s = do
  (teacher, subject) ← require_teacher_owns_subject user_id subject_id s
  id ← normalize_id (some activity_id) (unauthorized "Activity is required.")
  activity ← assert_found (find_task id s) (not_found "Activity not found.")
  require (text_eq activity.subject_id subject.id)
      (forbidden "Activity does not belong to the selected subject.")
  ok (teacher, subject, activity)

-- `submission.subject?.teacherId`, as text
abbrev pub teacher_of : Text → Store → Text
teacher_of subject_id s = elim (find_subject subject_id s) [
  | none ↦ []
  | some subject ↦ nullish subject.teacher_id []
]

-- `requireTeacherCanReviewSubmission`
unfoldable pub require_teacher_can_review :
    Option Text → Text → Store → Result (TeacherProfile × Submission)
unfolding require_teacher_profile normalize_id
require_teacher_can_review user_id submission_id s = do
  teacher ← require_teacher_profile user_id s
  id ← normalize_id (some submission_id) (unauthorized "Submission is required.")
  submission ← assert_found (find_submission id s) (not_found "Submission not found.")
  require (text_eq (teacher_of submission.subject_id s) teacher.id)
      (forbidden "You do not have access to review this submission.")
  ok (teacher, submission)

abbrev pub is_present : MemberStatus → Bool
is_present present = true
is_present removed = false

-- A member of the submission's group who is active there.
abbrev pub is_in_group : Text → Option Text → Store → Bool
is_in_group user none s = false
is_in_group user (some group) s =
    any (λ m. text_eq m.student_id user && is_present m.status) (members_of group s)

-- `ownsIndividual || ownsGroup`
abbrev pub owns_submission : Text → Submission → Store → Bool
owns_submission user submission s =
    option_eq submission.student_id (some user) || is_in_group user submission.group_id s

-- `requireStudentCanAccessSubmission`
unfoldable pub require_student_can_access : Option Text → Text → Store → Result Submission
unfolding require_student_enrolled normalize_id
require_student_can_access user_id submission_id s = do
  user ← normalize_id user_id (unauthorized "Student user is required.")
  id ← normalize_id (some submission_id) (unauthorized "Submission is required.")
  submission ← assert_found (find_submission id s) (not_found "Submission not found.")
  enrolled ← require_student_enrolled (some user) submission.subject_id s
  require (owns_submission user submission s)
      (forbidden "You do not have access to this submission.")
  ok submission
