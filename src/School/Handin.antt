-- ===== src/School/Handin.antt =====
-- What a student hands in, and whether it may be: `validateStudentSubmission` of
-- backend/src/submissions/submissions.service.ts. Times are milliseconds.
use proj_track_official.Prelude.{
  ℕ, ◌*◌, Bool, true, false, ◌&&◌, ◌||◌, not, Option, none, some, List, [], ◌∷◌, ◌++◌, map, any,
  find, keep, ltb, ◌==◌, if◌then◌else◌,
}
use proj_track_official.Prelude.Text.{
  Text, codes, text_eq, member, is_empty, trim, falsy, CaseTable, to_lower,
}
use proj_track_official.Prelude.Outcome.{bad_request, forbidden, Result, ok}
use proj_track_official.Prelude.Check.{◌>>=◌, ◌>>◌, require}
use proj_track_official.School.Store.{GroupStatus, active, Group, Task, Store}
use proj_track_official.School.Access.{assert_found, require_student_enrolled}
use proj_track_official.School.Group.Rows.{is_seated}

-- A file of the request.
pub record Attachment : Type 0 where
  pub upload_id : Text
  pub name : Text
  pub size_kb : ℕ
  pub relative_path : Option Text

-- The body of the request.
pub record Handin : Type 0 where
  pub activity_id : Text
  pub title : Option Text
  pub group_id : Option Text
  pub links : List Text
  pub link : Option Text
  pub files : List Attachment

-- `time && now < time`, and `time && now > time`
abbrev pub is_before : ℕ → Option ℕ → Bool
is_before now none = false
is_before now (some t) = not (t == 0) && ltb now t

abbrev pub is_after : ℕ → Option ℕ → Bool
is_after now none = false
is_after now (some t) = not (t == 0) && ltb t now

-- `dueAt`
abbrev pub due_time : Task → Option ℕ
due_time task = elim task.due_at [ none ↦ task.deadline | some t ↦ some t ]

abbrev pub is_late : ℕ → Task → Bool
is_late now task = is_after now (due_time task)

abbrev pub has_dot : Text → Bool
has_dot name = any (λ c. c == b'.') name

-- `fileName.split('.').pop()`
abbrev pub last_part : Text → Text
last_part [] = []
last_part (c ∷ s) =
    let rest = last_part s in if has_dot s then rest else if c == b'.' then s else c ∷ s

abbrev pub extension : ⦃t : CaseTable⦄ → Text → Text
extension name = if has_dot name then to_lower (codes "." ++ last_part name) else []

-- `extension.replace(/^\./, '')`
abbrev pub without_dot : Text → Text
without_dot [] = []
without_dot (c ∷ s) = if c == b'.' then s else c ∷ s

abbrev pub accepted_types : ⦃t : CaseTable⦄ → Task → List Text
accepted_types task =
    keep (λ x. not (is_empty x)) (map (λ x. to_lower (trim x)) task.accepted_file_types)

abbrev pub is_nil : List Text → Bool
is_nil [] = true
is_nil (x ∷ xs) = false

abbrev pub is_type_refused : ⦃t : CaseTable⦄ → Task → Attachment → Bool
is_type_refused task file =
    let types = accepted_types task in
    let ext = extension (trim file.name) in
    not (is_nil types) && not (member ext types) && not (member (without_dot ext) types)

-- `Math.max(1, Number(activity.maxFileSizeMb || 10)) * 1024`
abbrev pub max_file_size_kb : Task → ℕ
max_file_size_kb task = (if task.max_file_size_mb == 0 then 10 else task.max_file_size_mb) * 1024

abbrev pub is_too_large : Task → Attachment → Bool
is_too_large task file = ltb (max_file_size_kb task) file.size_kb

-- The loop over the files: the first that is refused decides the exception.
unfoldable pub check_files : ⦃t : CaseTable⦄ → Task → List Attachment → Result (Unit {0})
check_files task [] = ok tt
check_files task (file ∷ files) = do
  require (not (is_type_refused task file))
      (bad_request "File type is not accepted for this activity.")
  require (not (is_too_large task file)) (bad_request "File exceeds the limit.")
  check_files task files

abbrev pub external_links : Handin → List Text
external_links body =
    keep (λ x. not (is_empty x)) (map trim (body.links ++ falsy body.link [] ∷ []))

abbrev pub is_active : GroupStatus → Bool
is_active active = true
is_active _ = false

-- `group.findFirst`: an active group of the subject that the student is in.
abbrev pub is_own_group : Text → Text → Store → Group → Bool
is_own_group subject user s g =
    text_eq g.subject_id subject
    && any (λ m. is_seated g.id m && text_eq m.student_id user) s.members
    && is_active g.status

-- `body.groupId && …`
abbrev pub given : Option Text → Bool
given none = false
given (some id) = not (is_empty id)

abbrev pub is_other_group : Option Text → Text → Bool
is_other_group none id = false
is_other_group (some asked) id = not (is_empty asked) && not (text_eq asked id)

pub record Verdict : Type 0 where
  pub status : Text
  pub group_id : Option Text

abbrev pub first_status : ℕ → Task → Text
first_status now task = if is_late now task then codes "LATE" else codes "SUBMITTED"

-- The last part, for a group task.
unfoldable pub check_group : ℕ → Handin → Task → Text → Store → Result Verdict
check_group now body task user s = do
  group ←
      assert_found (find (is_own_group task.subject_id user s) s.groups)
        (bad_request "You must belong to an active group before submitting this group activity.")
  require (not (is_other_group body.group_id group.id))
      (forbidden "Submission group does not match your current subject group.")
  ok (record { status = first_status now task; group_id = some group.id })

-- The end of `validateStudentSubmission`: whom the submission belongs to.
unfoldable pub group_verdict : ℕ → Handin → Task → Text → Store → Result Verdict
unfolding check_group
group_verdict now body task user s =
    if task.is_group_task
    then check_group now body task user s
    else ok (record { status = first_status now task; group_id = none })

-- `validateStudentSubmission`
unfoldable pub validate_student_submission :
    ⦃t : CaseTable⦄ → ℕ → Handin → Task → Text → Store → Result Verdict
unfolding require_student_enrolled check_files group_verdict
validate_student_submission now body task user s = do
  e ← require_student_enrolled (some user) task.subject_id s
  require e.subject.is_open (bad_request "This subject is closed for submissions.")
  require (not (is_before now task.open_at))
      (bad_request "This activity is not open for submission yet.")
  require (not (is_after now task.close_at))
      (bad_request "This activity is already closed for submission.")
  require task.is_open (bad_request "This activity is not open for submission.")
  require (not (is_late now task && not task.allow_late))
      (bad_request "The submission deadline has passed and late submissions are disabled.")
  checked ← check_files task body.files
  require (is_nil (external_links body) || task.external_links_allowed)
      (bad_request "External links are not allowed for this activity.")
  require (task.is_group_task || not (given body.group_id))
      (bad_request "This activity requires an individual submission.")
  group_verdict now body task user s
