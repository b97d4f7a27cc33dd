-- ===== src/School/Submit.antt =====
-- Handing in: `submit` of backend/src/submissions/submissions.service.ts, with
-- `createOrUpdateSubmission` of backend/src/repositories/submission.repository.ts. The notification of
-- the teacher is left out. The database makes the ids: `fresh` for the submission, `file_id` for files.
use proj_track_official.Prelude.{
  ℕ, suc, ◌+◌, ◌/◌, Bool, false, ◌&&◌, ◌||◌, not, Option, none, some, List, [], ◌∷◌, ◌++◌, map, any,
  find, keep, length, ◌==◌, if◌then◌else◌,
}
use proj_track_official.Prelude.Text.{Text, codes, text_eq, is_empty, falsy, option_eq, CaseTable}
use proj_track_official.Prelude.Table.{update_one, delete_many}
use proj_track_official.Prelude.Outcome.{
  bad_request, forbidden, not_found, conflict, Handler, ◌>>=◌, ◌>>◌, get, modify, require, throw,
  return, lift, transaction, Result, ok, err,
}
use proj_track_official.Submission.Lifecycle.{
  EventAction, file_attached, event_action, can_student_edit,
}
use proj_track_official.School.Store.{Task, Submission, File, Upload, Store, find_task}
use proj_track_official.School.Access.{assert_found}
use proj_track_official.School.Group.Rows.{record_audit}
use proj_track_official.School.Uploads.{non_empty, resolve_pending_uploads, consume_pending_uploads}
use proj_track_official.School.Handin.{Attachment, Handin, given, validate_student_submission}

-- `findExistingSubmission`
abbrev pub is_existing : Text → Text → Option Text → Submission → Bool
is_existing task user group x =
    text_eq x.task_id task
    && (if given group then option_eq x.group_id group else option_eq x.student_id (some user))

-- `Math.max(1, Math.ceil(sizeBytes / 1024))`
abbrev pub size_in_kb : ℕ → ℕ
size_in_kb bytes = if bytes == 0 then 1 else (bytes + 1023) / 1024

-- The file of the request with what its upload says; the lookup is by the id as it was sent.
abbrev pub attach : Attachment → Upload → Attachment
attach file u = record {
  upload_id = u.id;
  name = u.file_name;
  size_kb = size_in_kb u.size_bytes;
  relative_path = some u.storage_key;
}

unfoldable pub attach_all : List Upload → List Attachment → Result (List Attachment)
attach_all uploads [] = ok []
attach_all uploads (file ∷ files) =
    both (find (λ (u : Upload). text_eq u.id file.upload_id) uploads) (attach_all uploads files)
  where
    both : Option Upload → Result (List Attachment) → Result (List Attachment)
    both none rest = err (bad_request "One or more uploads are not available for this submission.")
    both (some u) (ok rest) = ok (attach file u ∷ rest)
    both (some u) (err e) = err e

-- The rows of `files: { create: … }`.
abbrev pub new_files : (ℕ → Text) → ℕ → Text → List Attachment → List File
new_files file_id i submission [] = []
new_files file_id i submission (file ∷ files) =
    record {
      id = file_id i;
      submission_id = submission;
      name = file.name;
      size_kb = file.size_kb;
      relative_path = file.relative_path;
      deleted_at = none;
    }
    ∷ new_files file_id (suc i) submission files

-- The `data` of the update.
abbrev pub handed_in_again : ℕ → Handin → Text → Text → Task → Submission → Submission
handed_in_again now body user status task x = record x {
  status = status;
  submitted_at = some now;
  submitted_by = some user;
  title = falsy body.title task.title;
  feedback = some (codes "Submission received.");
}

-- The `data` of the create.
abbrev pub new_submission : Text → ℕ → Handin → Option Text → Text → Text → Task → Submission
new_submission fresh now body group user status task = record {
  id = fresh;
  task_id = body.activity_id;
  subject_id = task.subject_id;
  student_id = if given group then none else some user;
  group_id = group;
  submitted_by = some user;
  title = falsy body.title task.title;
  status = status;
  submitted_at = some now;
  grade = none;
  feedback = some (codes "Submission received.");
}

-- The unique indexes of `Submission`: its key, the task with the student, the task with the group.
abbrev pub same_owner : Option Text → Option Text → Bool
same_owner (some a) (some b) = text_eq a b
same_owner _ _ = false

abbrev pub collides : Submission → Submission → Bool
collides x y =
    text_eq y.id x.id
    || (text_eq y.task_id x.task_id
        && (same_owner y.student_id x.student_id || same_owner y.group_id x.group_id))

abbrev pub upload_ids : List Attachment → List Text
upload_ids files = map (λ (f : Attachment). f.upload_id) files

-- The files deleted, the submission updated, the new files created.
abbrev pub written : (ℕ → Text) → ℕ → Handin → Text → Text → Task → Submission → Store → Store
written file_id now body user status task existing s = record s {
  submissions =
      update_one (λ x. text_eq x.id existing.id) (handed_in_again now body user status task)
        s.submissions;
  files =
      delete_many (λ (f : File). text_eq f.submission_id existing.id) s.files
      ++ new_files file_id 0 existing.id body.files;
}

-- The submission and its files created.
abbrev pub inserted : (ℕ → Text) → Handin → Submission → Store → Store
inserted file_id body row s = record s {
  submissions = s.submissions ++ row ∷ [];
  files = s.files ++ new_files file_id 0 row.id body.files;
}

-- The transaction of `createOrUpdateSubmission` for a submission that is there.
unfoldable pub update_submission :
    (ℕ → Text) → ℕ → Handin → Text → Text → Task → Submission → Handler Store Submission
unfolding consume_pending_uploads
update_submission file_id now body user status task existing = transaction (do
  let row = handed_in_again now body user status task existing
  modify (written file_id now body user status task existing)
  consume_pending_uploads now (upload_ids body.files) user existing.id
  return row)

-- The transaction that creates one; a unique index makes a conflict of it.
unfoldable pub insert_submission :
    (ℕ → Text) → ℕ → Handin → Text → Submission → Handler Store Submission
unfolding consume_pending_uploads
insert_submission file_id now body user row = transaction (do
  s ← get
  require (not (any (collides row) s.submissions))
      (conflict "A submission already exists for this activity.")
  modify (inserted file_id body row)
  consume_pending_uploads now (upload_ids body.files) user row.id
  return row)

-- `createOrUpdateSubmission`; the group is the verdict's.
unfoldable pub create_or_update_submission :
    Text → (ℕ → Text) → ℕ → Handin → Option Text → Text → Text → Handler Store Submission
unfolding update_submission insert_submission
create_or_update_submission fresh file_id now body group user status = do
  s ← get
  task ← lift (assert_found (find_task body.activity_id s) (not_found "Activity not found."))
  elim (find (is_existing body.activity_id user group) s.submissions) [
    | none ↦
        insert_submission file_id now body user
          (new_submission fresh now body group user status task)
    | some existing ↦ update_submission file_id now body user status task existing
  ]

-- `submissionEvent.create`
abbrev pub record_event :
    Text → Option Text → EventAction → Option Text → Option Text → Handler Store (Unit {0})
record_event submission actor action from to = modify (λ s. record s {
  events =
      s.events
      ++ record {
        submission_id = submission;
        actor = actor;
        action = action;
        from_status = from;
        to_status = to;
      }
        ∷ [];
})

-- One event for each file of the submission.
abbrev pub record_files : Submission → Text → List File → Handler Store (Unit {0})
record_files row user [] = return tt
record_files row user (file ∷ files) =
    record_event row.id (some user) file_attached none (some row.status)
    >> record_files row user files

abbrev pub status_of : Option Submission → Option Text
status_of none = none
status_of (some x) = some x.status

-- `existingSubmission && !canStudentEditSubmission(existingSubmission.status)`
abbrev pub is_fixed : ⦃t : CaseTable⦄ → Option Submission → Bool
is_fixed none = false
is_fixed (some x) = not (can_student_edit (some x.status))

abbrev pub all_named : List Attachment → Bool
all_named files = length files == length (non_empty (upload_ids files))

-- `submit`, from the audit row on
unfoldable pub record_submission :
    ⦃t : CaseTable⦄ → Text → Option Text → Submission → Handler Store (Unit {0})
record_submission user before row = do
  record_audit (codes "STUDENT") (some user) (codes "SUBMISSION_CREATED") row.id
  record_event row.id (some user) (event_action before (some row.status)) before (some row.status)
  s ← get
  record_files row user (keep (λ (f : File). text_eq f.submission_id row.id) s.files)

-- `submit`, from the validation on; it reads from `s`.
unfoldable pub submit_attached :
    ⦃t : CaseTable⦄
    → Text
    → (ℕ → Text)
    → ℕ
    → Handin
    → Text
    → Task
    → Store
    → Handler Store Submission
unfolding validate_student_submission create_or_update_submission record_submission
submit_attached fresh file_id now body user task s = do
  verdict ← lift (validate_student_submission now body task user s)
  let existing = find (is_existing body.activity_id user verdict.group_id) s.submissions
  require (not (is_fixed existing)) (
      bad_request
        "This submission can no longer be edited or resubmitted from the student workflow.")
  row ← create_or_update_submission fresh file_id now body verdict.group_id user verdict.status
  record_submission user (status_of existing) row
  return row

-- `submit` of a user; the activity is read from `s`.
unfoldable pub submit_as :
    ⦃t : CaseTable⦄
    → (Text → Bool)
    → Text
    → (ℕ → Text)
    → ℕ
    → Handin
    → Text
    → Store
    → Handler Store Submission
unfolding resolve_pending_uploads attach_all submit_attached
submit_as stored fresh file_id now body user s = do
  task ← lift (assert_found (find_task body.activity_id s) (not_found "Activity not found."))
  require (all_named body.files)
      (bad_request "Each submitted file must reference a pending upload id.")
  uploads ← resolve_pending_uploads stored now (upload_ids body.files) user
  files ← lift (attach_all uploads body.files)
  get >>= submit_attached fresh file_id now (record body { files = files }) user task

-- `submit`
unfoldable pub submit :
    ⦃t : CaseTable⦄
    → (Text → Bool)
    → Text
    → (ℕ → Text)
    → ℕ
    → Handin
    → Option Text
    → Handler Store Submission
unfolding submit_as
submit stored fresh file_id now body none =
    throw (forbidden "Authenticated student session is required.")
submit stored fresh file_id now body (some user) = do
  require (not (is_empty user)) (forbidden "Authenticated student session is required.")
  get >>= submit_as stored fresh file_id now body user
