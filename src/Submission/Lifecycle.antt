-- ===== src/Submission/Lifecycle.antt =====
-- The life of a submission: backend/src/submissions/submission-lifecycle.ts and
-- backend/src/access/policies/submission-access.policy.ts.
pub mod Laws
pub mod Reading
pub mod Traces
use proj_track_official.Prelude.{
  ℕ, Bool, true, false, ◌||◌, ◌&&◌, not, Option, none, some, List, [], ◌∷◌, ◌==◌, if◌then◌else◌,
}
use proj_track_official.Prelude.Text.{
  Text, codes, text_eq, member, is_empty, trim, underscore_spaces, CaseTable, to_upper, nullish,
  falsy,
}

-- `SubmissionLifecycleStatus`
pub data Status : Type 0 where
  draft opened submitted reviewed graded late needs_revision reopened : Status

-- The text that stands for a status in the database and in requests.
abbrev pub status_text : Status → Text
status_text draft = codes "DRAFT"
status_text opened = codes "OPEN"
status_text submitted = codes "SUBMITTED"
status_text reviewed = codes "REVIEWED"
status_text graded = codes "GRADED"
status_text late = codes "LATE"
status_text needs_revision = codes "NEEDS_REVISION"
status_text reopened = codes "REOPENED"

read_status : Text → Status
read_status normalized =
    if text_eq normalized (codes "PENDING_REVIEW")
    then submitted
    else if text_eq normalized (codes "OPEN")
    then opened
    else if text_eq normalized (codes "SUBMITTED")
    then submitted
    else if text_eq normalized (codes "REVIEWED")
    then reviewed
    else if text_eq normalized (codes "GRADED")
    then graded
    else if text_eq normalized (codes "LATE")
    then late
    else if text_eq normalized (codes "NEEDS_REVISION")
    then needs_revision
    else if text_eq normalized (codes "REOPENED")
    then reopened
    else draft

unfoldable pub normalize_status : ⦃t : CaseTable⦄ → Option Text → Status
unfolding read_status
normalize_status status =
    read_status (to_upper (underscore_spaces (trim (falsy status (codes "DRAFT")))))

editable : Status → Bool
editable draft = true
editable needs_revision = true
editable reopened = true
editable opened = true
editable _ = false

unfoldable pub can_student_edit : ⦃t : CaseTable⦄ → Option Text → Bool
unfolding editable normalize_status
can_student_edit status = editable (normalize_status status)

abbrev pub status_eq : Status → Status → Bool
status_eq a b = rank a == rank b
  where
    rank : Status → ℕ
    rank draft = 0
    rank opened = 1
    rank submitted = 2
    rank reviewed = 3
    rank graded = 4
    rank late = 5
    rank needs_revision = 6
    rank reopened = 7

-- The table `allowed`.
allowed : Status → List Status
allowed draft = submitted ∷ late ∷ []
allowed opened = submitted ∷ late ∷ []
allowed submitted = reviewed ∷ graded ∷ needs_revision ∷ []
allowed reviewed = graded ∷ needs_revision ∷ reopened ∷ []
allowed graded = reopened ∷ []
allowed late = reviewed ∷ graded ∷ needs_revision ∷ []
allowed needs_revision = submitted ∷ late ∷ reopened ∷ []
allowed reopened = submitted ∷ late ∷ reviewed ∷ graded ∷ needs_revision ∷ []

abbrev includes : Status → List Status → Bool
includes s [] = false
includes s (t ∷ ts) = status_eq s t || includes s ts

transition_allowed : Status → Status → Bool
unfolding allowed
transition_allowed from to = if status_eq to from then true else includes to (allowed from)

unfoldable pub can_transition : ⦃t : CaseTable⦄ → Option Text → Option Text → Bool
unfolding transition_allowed normalize_status
can_transition current next = transition_allowed (normalize_status current) (normalize_status next)

-- `isPendingReviewStatus`
unfoldable pub is_pending_review : ⦃t : CaseTable⦄ → Option Text → Bool
is_pending_review status =
    member (to_upper (trim (nullish status [])))
      (codes "SUBMITTED" ∷ codes "PENDING_REVIEW" ∷ codes "LATE" ∷ [])

-- The actions that an entry of the event log may name.
pub data EventAction : Type 0 where
  event_submitted resubmitted marked_reviewed event_graded returned_for_revision : EventAction
  event_reopened status_changed file_attached : EventAction

-- `eventActionForSubmission`
unfoldable pub event_action : ⦃t : CaseTable⦄ → Option Text → Option Text → EventAction
event_action from_status to_status =
    let from = to_upper (trim (nullish from_status [])) in
    let to = to_upper (trim (nullish to_status [])) in
    let handed_in = text_eq to (codes "SUBMITTED") || text_eq to (codes "LATE") in
    if is_empty from && handed_in
    then event_submitted
    else if not (is_empty from) && handed_in
    then resubmitted
    else if text_eq to (codes "REVIEWED")
    then marked_reviewed
    else if text_eq to (codes "GRADED")
    then event_graded
    else if text_eq to (codes "NEEDS_REVISION")
    then returned_for_revision
    else if text_eq to (codes "REOPENED")
    then event_reopened
    else status_changed
