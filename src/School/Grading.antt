-- ===== src/School/Grading.antt =====
-- What a review writes, and who may write it.
use proj_track_official.Prelude.{
  ◌≡◌, refl, ap, true, false, not, ◌||◌, Option, some, [], arith, Option-cases, Bool-cases, inl,
  inr, find_sound, is_some, subst, ◌∙◌,
}
use proj_track_official.Prelude.Text.{Text, text_eq, trim, nullish, CaseTable}
use proj_track_official.Prelude.Table.{find-update_one}
use proj_track_official.Prelude.Outcome.{done, final, succeeded}
use proj_track_official.Submission.Lifecycle.{
  Status, draft, opened, submitted, reviewed, graded, late, needs_revision, reopened, status_text,
  status_eq, normalize_status, can_transition,
}
use proj_track_official.School.Store.{Submission, Store, find_submission}
use proj_track_official.School.Access.{require_teacher_can_review}
use proj_track_official.School.Review.{Verdict, is_numeric, review, reviewed_as, asked_status}
use proj_track_official.School.Permissions.{
  is_reviewer, Result-cases, require_teacher_can_review-is_allowed,
}

graded_text : (x : Status) → text_eq (status_text x) (status_text graded) ≡ status_eq x graded
unfolding text_eq
graded_text draft = refl
graded_text opened = refl
graded_text submitted = refl
graded_text reviewed = refl
graded_text graded = refl
graded_text late = refl
graded_text needs_revision = refl
graded_text reopened = refl

module _ ⦃t : CaseTable⦄ where
  -- A review that throws has written nothing.
  pub review-final :
      (id : Text) (body : Verdict) (actor : Option Text) (s : Store)
      → succeeded (review id body actor s) ≡ false
      → final (review id body actor s) ≡ s
  unfolding review
  review-final id body actor s failed = elim (Option-cases (find_submission id s)) [
    | inl missing ↦ ground arith
    | inr (old, known) ↦ elim (Result-cases (require_teacher_can_review actor id s)) [
      | inl refused ↦ ground arith
      | inr (pair, allowed) ↦
          let next = normalize_status (some (asked_status body.status old.status)) in
          elim (Bool-cases (can_transition (some old.status) (some (status_text next)))) [
            | inr barred ↦ ground arith
            | inl step ↦ elim (Bool-cases (not (status_eq next graded) || is_numeric body.grade)) [
              | inr ungraded ↦ ground arith
              | inl complete ↦ absurd (ground arith)
            ]
          ]
    ]
  ]

  -- A review that returns was made by the teacher of the submission's subject, moved it by a step that
  -- the lifecycle allows, and left the row it returns in the table; a row that is graded has a grade.
  pub review-can_transition :
      (id : Text) (body : Verdict) (actor : Option Text) (s s' : Store) (old row : Submission)
      → find_submission id s ≡ some old
      → review id body actor s ≡ done row s'
      → (is_reviewer (trim (nullish actor [])) (find_submission (trim id) s) s ≡ true)
        × (can_transition (some old.status) (some row.status) ≡ true)
        × (find_submission id s' ≡ some row)
        × ((not (text_eq row.status (status_text graded)) || is_some row.grade) ≡ true)
  unfolding review
  review-can_transition id body actor s s' old row known h =
      elim (Result-cases (require_teacher_can_review actor id s)) [
        | inl refused ↦ absurd (ground arith)
        | inr (pair, allowed) ↦
            let next = normalize_status (some (asked_status body.status old.status)) in
            let who = require_teacher_can_review-is_allowed actor id s in
            let is_id = find_sound (λ (x : Submission). text_eq x.id id) s.submissions known in
            elim (Bool-cases (can_transition (some old.status) (some (status_text next)))) [
              | inr barred ↦ absurd (ground arith)
              | inl step ↦
                  elim (Bool-cases (not (status_eq next graded) || is_numeric body.grade)) [
                    | inr ungraded ↦ absurd (ground arith)
                    | inl complete ↦
                        let changed =
                          find-update_one (λ (x : Submission). text_eq x.id id)
                            (reviewed_as next body) s.submissions known is_id in
                        let is_row : reviewed_as next body old ≡ row = ground arith in
                        let place : find_submission id (final (review id body actor s))
                            ≡ some (reviewed_as next body old) =
                          ground arith in
                        let last : find_submission id s' ≡ some (reviewed_as next body old) =
                          subst
                            (λ o. find_submission id (final o) ≡ some (reviewed_as next body old)) h
                            place in
                        let grade_text = graded_text next in
                        (
                          ground arith,
                          subst (λ x. can_transition (some old.status) (some x.status) ≡ true)
                              is_row step,
                          last ∙ ap some is_row,
                          subst
                              (λ x.
                                (not (text_eq x.status (status_text graded)) || is_some x.grade)
                                ≡ true)
                              is_row (ground arith),
                        )
                  ]
            ]
      ]
