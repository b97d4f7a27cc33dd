-- ===== src/School/Download.antt =====
-- Who may download a submitted file: `requireUserCanDownloadFile` of
-- backend/src/access/access.service.ts, and `normalizeRole` of policies/file-access.policy.ts.
use proj_track_official.Prelude.{
  ℕ, Bool, true, false, ◌&&◌, ◌||◌, Option, none, some, [], if◌then◌else◌, find,
}
use proj_track_official.Prelude.Text.{
  Text, codes, text_eq, trim, nullish, option_eq, CaseTable, to_upper,
}
use proj_track_official.Prelude.Outcome.{unauthorized, forbidden, not_found, Result, ok, err}
use proj_track_official.Prelude.Check.{◌>>=◌, ◌>>◌, require}
use proj_track_official.School.Store.{Submission, File, Store, find_submission}
use proj_track_official.School.Access.{
  assert_found, normalize_id, require_teacher_profile, teacher_of, owns_submission,
}

-- `deletedAt: null, OR: [{ id }, { relativePath }]`
abbrev pub is_file_at : Text → File → Bool
is_file_at value f =
    is_kept f.deleted_at && (text_eq f.id value || option_eq f.relative_path (some value))
  where
    is_kept : Option ℕ → Bool
    is_kept none = true
    is_kept (some t) = false

-- `String(meta.submission?.subject?.teacherId ?? '')`
abbrev pub teacher_of_file : Option Submission → Store → Text
teacher_of_file none s = []
teacher_of_file (some submission) s = teacher_of submission.subject_id s

-- `ownsIndividual || ownsGroup` for `meta.submission`
abbrev pub owns_file : Text → Option Submission → Store → Bool
owns_file user none s = false
owns_file user (some submission) s = owns_submission user submission s

-- `requireUserCanDownloadFile`, the branch of the role TEACHER
unfoldable pub download_as_teacher : Option Text → File → Store → Result (Option File)
unfolding require_teacher_profile normalize_id
download_as_teacher user_id meta s = do
  teacher ← require_teacher_profile user_id s
  require (text_eq (teacher_of_file (find_submission meta.submission_id s) s) teacher.id)
      (forbidden "You do not have access to this file.")
  ok (some meta)

-- `requireUserCanDownloadFile`, the branch of the role STUDENT
unfoldable pub download_as_student : Option Text → File → Store → Result (Option File)
unfolding normalize_id
download_as_student user_id meta s = do
  user ← normalize_id user_id (unauthorized "Student user is required.")
  require (owns_file user (find_submission meta.submission_id s) s)
      (forbidden "You do not have access to this file.")
  ok (some meta)

-- `normalizeRole`
abbrev pub normalize_role : ⦃t : CaseTable⦄ → Option Text → Text
normalize_role role = to_upper (trim (nullish role []))

-- `requireUserCanDownloadFile`, from the branch of the role ADMIN on
unfoldable pub download_by_role : Option Text → Text → Option File → Store → Result (Option File)
unfolding download_as_teacher download_as_student
download_by_role user_id role meta s =
    if text_eq role (codes "ADMIN")
    then ok meta
    else (assert_found meta (not_found "File not found.") >>= λ f.
        if text_eq role (codes "TEACHER")
        then download_as_teacher user_id f s
        else (if text_eq role (codes "STUDENT")
            then download_as_student user_id f s
            else err (forbidden "You do not have access to this file.")))

-- `requireUserCanDownloadFile`
unfoldable pub require_can_download :
    ⦃t : CaseTable⦄ → Option Text → Option Text → Text → Store → Result (Option File)
unfolding normalize_id download_by_role
require_can_download user_id role file s = do
  value ← normalize_id (some file) (unauthorized "File is required.")
  download_by_role user_id (normalize_role role) (find (is_file_at value) s.files) s
