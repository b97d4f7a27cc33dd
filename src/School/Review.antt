-- ===== src/School/Review.antt =====
-- Reviewing: `review` of backend/src/submissions/submissions.service.ts, with `reviewSubmission` of
-- backend/src/repositories/submission.repository.ts. The notification of the students is left out.
use proj_track_official.Prelude.{ℕ, Bool, true, false, ◌||◌, not, Option, none, some, is_some}
use proj_track_official.Prelude.Text.{Text, codes, text_eq, is_empty, CaseTable}
use proj_track_official.Prelude.Table.{update_one}
use proj_track_official.Prelude.Outcome.{
  bad_request, not_found, Handler, ◌>>=◌, ◌>>◌, get, modify, require, return, lift,
}
use proj_track_official.Submission.Lifecycle.{
  Status, graded, status_text, status_eq, normalize_status, can_transition, event_action,
}
use proj_track_official.School.Store.{Submission, Store, find_submission}
use proj_track_official.School.Access.{assert_found, require_teacher_can_review}
use proj_track_official.School.Group.Rows.{record_audit}
use proj_track_official.School.Submit.{record_event}

-- The body of the request. A grade or feedback that is left out is `none`, and one that is null is
-- `some none`.
pub record Verdict : Type 0 where
  pub status : Option Text
  pub grade : Option (Option ℕ)
  pub feedback : Option (Option Text)

-- `body.status || existing.status`
abbrev pub asked_status : Option Text → Text → Text
asked_status none current = current
asked_status (some asked) current = elim (is_empty asked) [ true ↦ current | false ↦ asked ]

abbrev pub or_keep {ℓ} : {A : Type ℓ} → Option (Option A) → Option A → Option A
or_keep none old = old
or_keep (some new) old = new

-- Is there a number among the body's grades?
abbrev pub is_numeric : Option (Option ℕ) → Bool
is_numeric none = false
is_numeric (some grade) = is_some grade

-- The `data` of the update: a column that is left out stays, and one that is null is cleared.
abbrev pub reviewed_as : Status → Verdict → Submission → Submission
reviewed_as next body x = record x {
  status = status_text next;
  grade = or_keep body.grade x.grade;
  feedback = or_keep body.feedback x.feedback;
}

-- `review`
unfoldable pub review : ⦃t : CaseTable⦄ → Text → Verdict → Option Text → Handler Store Submission
unfolding require_teacher_can_review
review id body actor = do
  s ← get
  existing ← lift (assert_found (find_submission id s) (not_found "Submission not found."))
  allowed ← lift (require_teacher_can_review actor id s)
  let next = normalize_status (some (asked_status body.status existing.status))
  require (can_transition (some existing.status) (some (status_text next)))
      (bad_request "Invalid submission status transition.")
  require (not (status_eq next graded) || is_numeric body.grade)
      (bad_request "A numeric grade is required before grading a submission.")
  modify (λ s. record s {
    submissions = update_one (λ x. text_eq x.id id) (reviewed_as next body) s.submissions;
  })
  let row = reviewed_as next body existing
  record_audit (codes "TEACHER") actor (codes "SUBMISSION_REVIEWED") row.id
  record_event row.id actor (event_action (some existing.status) (some row.status))
      (some existing.status) (some row.status)
  return row
