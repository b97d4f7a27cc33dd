-- ===== src/Submission/Tests.antt =====
-- The laws of the submission workflow at concrete submissions.
use proj_track_official.Prelude.{◌≡◌, ◌↔◌, ◌⊎◌, true, some}
use proj_track_official.Prelude.Text.{codes, ascii_only}
use proj_track_official.Submission.Lifecycle.{normalize_status, can_transition}
use proj_track_official.Submission.Lifecycle.Laws.{◌⟶◌, can_transition_iff}

can_transition_iff_example :
    (can_transition ⦃t = ascii_only⦄ (some (codes "submitted")) (some (codes "GRADED")) ≡ true) ↔ (
      (normalize_status ⦃t = ascii_only⦄ (some (codes "submitted"))
        ≡ normalize_status ⦃t = ascii_only⦄ (some (codes "GRADED")))
      ⊎ (normalize_status ⦃t = ascii_only⦄ (some (codes "submitted"))
          ⟶ normalize_status ⦃t = ascii_only⦄ (some (codes "GRADED"))))
can_transition_iff_example =
    can_transition_iff ⦃t = ascii_only⦄ (some (codes "submitted")) (some (codes "GRADED"))
