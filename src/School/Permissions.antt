-- ===== src/School/Permissions.antt =====
-- Whom the access checks let through.
use proj_track_official.Prelude.{
  ◌≡◌, refl, Bool, true, false, not, ◌&&◌, ◌||◌, Option, none, some, [], find, arith, Option-cases,
  Bool-cases, inl, inr, find_sound, ◌⊎◌,
}
use proj_track_official.Prelude.Text.{Text, codes, text_eq, is_empty, trim, nullish, CaseTable}
use proj_track_official.Prelude.Outcome.{Result, ok, err}
use proj_track_official.School.Store.{Submission, File, Store, find_teacher, find_submission}
use proj_track_official.School.Access.{
  require_teacher_can_review, require_teacher_profile, normalize_id, teacher_of,
}
use proj_track_official.School.Download.{
  require_can_download, download_by_role, download_as_teacher, download_as_student, normalize_role,
  is_file_at, teacher_of_file, owns_file,
}

-- Does the check let the caller through?
abbrev pub is_allowed : {A : Type 0} → Result A → Bool
is_allowed (ok a) = true
is_allowed (err e) = false

pub Result-cases : {A : Type 0} (r : Result A) → (is_allowed r ≡ false) ⊎ ((a : A) × (r ≡ ok a))
Result-cases (ok a) = inr (a, refl)
Result-cases (err e) = inl refl

-- The user is a teacher, and `owner` is that teacher's id.
abbrev pub is_teacher : Text → Text → Store → Bool
is_teacher user owner s = elim (find_teacher user s) [
  | none ↦ false
  | some teacher ↦ text_eq owner teacher.id
]

-- The user teaches the subject of the submission that was looked up.
abbrev pub is_reviewer : Text → Option Submission → Store → Bool
is_reviewer user none s = false
is_reviewer user (some submission) s = is_teacher user (teacher_of submission.subject_id s) s

-- Who may read a file, told by the role alone: the teacher of its subject, or the student whose own or
-- whose group's submission it belongs to.
abbrev pub may_read : Text → Text → File → Store → Bool
may_read role user f s =
    (text_eq role (codes "TEACHER")
      && is_teacher user (teacher_of_file (find_submission f.submission_id s) s) s)
    || (text_eq role (codes "STUDENT") && owns_file user (find_submission f.submission_id s) s)

module _ ⦃t : CaseTable⦄ where
  -- Who is no administrator and is given a file may read it: the file is one that the path or id leads
  -- to, and the caller is the teacher of its subject, or a student who owns its submission.
  pub require_can_download-may_read :
      (user_id role : Option Text) (path : Text) (s : Store) (f : File)
      → text_eq (normalize_role role) (codes "ADMIN") ≡ false
      → require_can_download user_id role path s ≡ ok (some f)
      → (is_file_at (trim path) f && may_read (normalize_role role) (trim (nullish user_id [])) f s)
        ≡ true
  unfolding require_can_download download_by_role download_as_teacher download_as_student
      normalize_id require_teacher_profile
  require_can_download-may_read user_id role path s f other granted =
      elim (Bool-cases (is_empty (trim path))) [
        | inl blank ↦ absurd (ground arith)
        | inr named ↦ elim (Option-cases (find (is_file_at (trim path)) s.files)) [
          | inl missing ↦ absurd (ground arith)
          | inr (g, found) ↦
              let at = find_sound (is_file_at (trim path)) s.files found in
              elim (Bool-cases (text_eq (normalize_role role) (codes "TEACHER"))) [
                | inl teacher ↦ elim (Option-cases (find_teacher (trim (nullish user_id [])) s)) [
                  | inl stranger ↦ absurd (ground arith)
                  | inr (profile, known) ↦ ground arith
                ]
                | inr no_teacher ↦ ground arith
              ]
        ]
      ]

-- A review is let through exactly when the user has a teacher's profile, there is a submission by that
-- id, and its subject is taught by that teacher.
pub require_teacher_can_review-is_allowed :
    (user_id : Option Text) (submission_id : Text) (s : Store)
    → is_allowed (require_teacher_can_review user_id submission_id s) ≡ (
        not (is_empty (trim (nullish user_id [])))
        && not (is_empty (trim submission_id))
        && is_reviewer (trim (nullish user_id [])) (find_submission (trim submission_id) s) s)
unfolding require_teacher_can_review normalize_id require_teacher_profile
require_teacher_can_review-is_allowed user_id submission_id s =
    let user = trim (nullish user_id []) in
    elim (Bool-cases (is_empty user)) [
      | inl nobody ↦ ground arith
      | inr named ↦ elim (Option-cases (find_teacher user s)) [
        | inl stranger ↦ elim (Option-cases (find_submission (trim submission_id) s)) [
          | inl missing ↦ ground arith
          | inr (x, known) ↦ ground arith
        ]
        | inr (teacher, profile) ↦ elim (Bool-cases (is_empty (trim submission_id))) [
          | inl nothing ↦ ground arith
          | inr asked ↦ elim (Option-cases (find_submission (trim submission_id) s)) [
            | inl missing ↦ ground arith
            | inr (x, known) ↦ ground arith
          ]
        ]
      ]
    ]
