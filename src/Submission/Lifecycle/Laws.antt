-- ===== src/Submission/Lifecycle/Laws.antt =====
-- Reading a status, and the transition table against a description of the workflow.
use proj_track_official.Prelude.{◌≡◌, refl, ◌↔◌, ◌⊎◌, inl, inr, true, Option, arith}
use proj_track_official.Prelude.Text.{Text, CaseTable}
use proj_track_official.Submission.Lifecycle.{
  Status, draft, opened, submitted, reviewed, graded, late, needs_revision, reopened,
  normalize_status, editable, can_student_edit, transition_allowed, can_transition,
}

-- The statuses in which the work is with the student.
pub data WithStudent : Status → Type 0 where
  is_draft : WithStudent draft
  is_open : WithStudent opened
  is_returned : WithStudent needs_revision
  is_reopened : WithStudent reopened

-- The statuses in which the teacher may decide.
pub data WithTeacher : Status → Type 0 where
  is_submitted : WithTeacher submitted
  is_late : WithTeacher late
  is_reviewed : WithTeacher reviewed
  is_taken_back : WithTeacher reopened

-- The workflow, by who acts.
infix 40 ◌⟶◌
pub data ◌⟶◌ : Status → Status → Type 0 where
  turn_in : {s : Status} → WithStudent s → s ⟶ submitted
  turn_in_late : {s : Status} → WithStudent s → s ⟶ late
  give_grade : {s : Status} → WithTeacher s → s ⟶ graded
  hand_back : {s : Status} → WithTeacher s → s ⟶ needs_revision
  mark_submitted : submitted ⟶ reviewed
  mark_late : late ⟶ reviewed
  mark_reopened : reopened ⟶ reviewed
  reopen_reviewed : reviewed ⟶ reopened
  reopen_graded : graded ⟶ reopened
  reopen_returned : needs_revision ⟶ reopened

pub ruleset holders =
    (is_draft, is_open, is_returned, is_reopened, is_submitted, is_late, is_reviewed, is_taken_back)

pub ruleset moves = (
  turn_in, turn_in_late, give_grade, hand_back, mark_submitted, mark_late, mark_reopened,
  reopen_reviewed, reopen_graded, reopen_returned,
)

transition_allowed_sound : (a b : Status) → transition_allowed a b ≡ true → (a ≡ b) ⊎ (a ⟶ b)
unfolding transition_allowed
transition_allowed_sound draft b h = grind (arith, holders, moves)
transition_allowed_sound a b h = grind (arith, holders, moves)

transition_allowed_self : (a : Status) → transition_allowed a a ≡ true
unfolding transition_allowed
transition_allowed_self draft = refl
transition_allowed_self _ = refl

transition_allowed_move : {a b : Status} → a ⟶ b → transition_allowed a b ≡ true
unfolding transition_allowed
transition_allowed_move (turn_in is_draft) = refl
transition_allowed_move (turn_in is_open) = refl
transition_allowed_move (turn_in is_returned) = refl
transition_allowed_move (turn_in is_reopened) = refl
transition_allowed_move (turn_in_late is_draft) = refl
transition_allowed_move (turn_in_late is_open) = refl
transition_allowed_move (turn_in_late is_returned) = refl
transition_allowed_move (turn_in_late is_reopened) = refl
transition_allowed_move (give_grade is_submitted) = refl
transition_allowed_move (give_grade is_late) = refl
transition_allowed_move (give_grade is_reviewed) = refl
transition_allowed_move (give_grade is_taken_back) = refl
transition_allowed_move (hand_back is_submitted) = refl
transition_allowed_move (hand_back is_late) = refl
transition_allowed_move (hand_back is_reviewed) = refl
transition_allowed_move (hand_back is_taken_back) = refl
transition_allowed_move mark_submitted = refl
transition_allowed_move mark_late = refl
transition_allowed_move mark_reopened = refl
transition_allowed_move reopen_reviewed = refl
transition_allowed_move reopen_graded = refl
transition_allowed_move reopen_returned = refl

transition_allowed_eq : (a b : Status) → a ≡ b → transition_allowed a b ≡ true
transition_allowed_eq a b e = rw e (transition_allowed_self b)

-- A change of status is permitted exactly when, both texts read as statuses, it is no change or a
-- step of the workflow.
pub can_transition_iff :
    ⦃t : CaseTable⦄
    → (current next : Option Text)
    → (can_transition current next ≡ true) ↔ (
        (normalize_status current ≡ normalize_status next)
        ⊎ (normalize_status current ⟶ normalize_status next))
unfolding can_transition
can_transition_iff current next = (
  transition_allowed_sound _ _,
  λ h. elim h [ inl e ↦ transition_allowed_eq _ _ e | inr m ↦ transition_allowed_move m ],
)

editable_sound : (s : Status) → editable s ≡ true → s ⟶ submitted
unfolding editable
editable_sound draft h = turn_in is_draft
editable_sound opened h = turn_in is_open
editable_sound needs_revision h = turn_in is_returned
editable_sound reopened h = turn_in is_reopened
editable_sound _ h = cc

editable_complete : {s : Status} → s ⟶ submitted → editable s ≡ true
unfolding editable
editable_complete (turn_in is_draft) = refl
editable_complete (turn_in is_open) = refl
editable_complete (turn_in is_returned) = refl
editable_complete (turn_in is_reopened) = refl

-- A student may edit a submission exactly when the workflow lets its status become SUBMITTED.
pub can_student_edit_iff :
    ⦃t : CaseTable⦄
    → (status : Option Text)
    → (can_student_edit status ≡ true) ↔ (normalize_status status ⟶ submitted)
unfolding can_student_edit
can_student_edit_iff status = (editable_sound _, editable_complete)
