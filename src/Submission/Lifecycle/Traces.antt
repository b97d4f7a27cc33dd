-- ===== src/Submission/Lifecycle/Traces.antt =====
-- What holds along every sequence of permitted status changes.
use proj_track_official.Prelude.{◌≡◌, refl, sym, ◌≢◌, ◌⊎◌, inl, inr, List, [], ◌∷◌, arith}
use mathlib.Core.List.{Memᴰ}
use proj_track_official.Submission.Lifecycle.{
  Status, draft, opened, submitted, reviewed, graded, late, needs_revision, reopened,
}
use proj_track_official.Submission.Lifecycle.Laws.{
  is_draft, is_open, is_returned, is_reopened, is_submitted, is_late, is_reviewed, is_taken_back,
  ◌⟶◌, turn_in, turn_in_late, give_grade, hand_back, mark_submitted, mark_late, mark_reopened,
  reopen_reviewed, reopen_graded, reopen_returned,
}

-- A history of a submission: the statuses that it took on after the first, in order.
pub data History : Status → List Status → Status → Type 0 where
  here : {s : Status} → History s [] s
  step : {s t u : Status} {path : List Status} → s ⟶ t → History t path u → History s (t ∷ path) u

-- The student has handed the work in at some time.
abbrev pub IsHandedIn : Status → Type 0
IsHandedIn s = (s ≢ draft) × (s ≢ opened)

IsHandedIn-move : {s t : Status} → s ⟶ t → IsHandedIn t
IsHandedIn-move (turn_in w) = ground arith
IsHandedIn-move (turn_in_late w) = ground arith
IsHandedIn-move (give_grade w) = ground arith
IsHandedIn-move (hand_back w) = ground arith
IsHandedIn-move mark_submitted = ground arith
IsHandedIn-move mark_late = ground arith
IsHandedIn-move mark_reopened = ground arith
IsHandedIn-move reopen_reviewed = ground arith
IsHandedIn-move reopen_graded = ground arith
IsHandedIn-move reopen_returned = ground arith

-- Work that was handed in never becomes a draft again, nor merely open.
pub History-IsHandedIn :
    {s t : Status} {path : List Status} → History s path t → IsHandedIn s → IsHandedIn t
History-IsHandedIn here h = h
History-IsHandedIn (step m r) h = History-IsHandedIn r (IsHandedIn-move m)

from_graded : {s t : Status} → s ⟶ t → s ≡ graded → t ≡ reopened
from_graded (turn_in is_draft) e = cc
from_graded (turn_in is_open) e = cc
from_graded (turn_in is_returned) e = cc
from_graded (turn_in is_reopened) e = cc
from_graded (turn_in_late is_draft) e = cc
from_graded (turn_in_late is_open) e = cc
from_graded (turn_in_late is_returned) e = cc
from_graded (turn_in_late is_reopened) e = cc
from_graded (give_grade is_submitted) e = cc
from_graded (give_grade is_late) e = cc
from_graded (give_grade is_reviewed) e = cc
from_graded (give_grade is_taken_back) e = cc
from_graded (hand_back is_submitted) e = cc
from_graded (hand_back is_late) e = cc
from_graded (hand_back is_reviewed) e = cc
from_graded (hand_back is_taken_back) e = cc
from_graded mark_submitted e = cc
from_graded mark_late e = cc
from_graded mark_reopened e = cc
from_graded reopen_reviewed e = refl
from_graded reopen_graded e = refl
from_graded reopen_returned e = refl

-- A graded submission gets another status only through REOPENED.
pub graded-History :
    {s t : Status} {path : List Status}
    → History s path t
    → s ≡ graded
    → (t ≡ graded) ⊎ Memᴰ reopened path
graded-History here e = inl e
graded-History (step m r) e = inr (Memᴰ.head (sym (from_graded m e)))

-- The work can be brought to a grade from every status, by steps of the workflow.
pub can_be_graded : (s : Status) → (path : List Status) × History s path graded
can_be_graded draft = (_, step (turn_in is_draft) (step (give_grade is_submitted) here))
can_be_graded opened = (_, step (turn_in is_open) (step (give_grade is_submitted) here))
can_be_graded submitted = (_, step (give_grade is_submitted) here)
can_be_graded reviewed = (_, step (give_grade is_reviewed) here)
can_be_graded graded = (_, here)
can_be_graded late = (_, step (give_grade is_late) here)
can_be_graded needs_revision = (_, step (turn_in is_returned) (step (give_grade is_submitted) here))
can_be_graded reopened = (_, step (give_grade is_taken_back) here)
