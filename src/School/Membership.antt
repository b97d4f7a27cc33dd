-- ===== src/School/Membership.antt =====
-- Who may create or join a group: the checks of backend/src/access/access.service.ts, with
-- policies/group-access.policy.ts.
use proj_track_official.Prelude.{
  ℕ, Bool, true, false, ◌&&◌, not, Option, none, some, [], ◌==◌, ltb, if◌then◌else◌, find, any,
  length,
}
use proj_track_official.Prelude.Text.{
  Text, text_eq, is_empty, trim, nullish, option_eq, CaseTable, to_upper,
}
use proj_track_official.Prelude.Outcome.{bad_request, not_found, Result, ok}
use proj_track_official.Prelude.Check.{◌>>=◌, ◌>>◌, require}
use proj_track_official.School.Store.{
  GroupStatus, pending, active, closed, archived, Group, Member, Store, find_group, members_of,
}
use proj_track_official.School.Access.{assert_found, require_student_enrolled, Enrolled, is_present}

-- `isJoinableGroupStatus`
abbrev pub is_joinable : GroupStatus → Bool
is_joinable pending = true
is_joinable active = true
is_joinable _ = false

abbrev pub is_over : GroupStatus → Bool
is_over closed = true
is_over archived = true
is_over _ = false

-- The rows that count as a membership: not removed, in a group that is neither closed nor archived.
abbrev pub is_current_member : Text → Text → Store → Member → Bool
is_current_member student subject s m =
    text_eq m.student_id student
    && is_present m.status
    && text_eq m.subject_id subject
    && goes_on (find_group m.group_id s)
  where
    goes_on : Option Group → Bool
    goes_on none = false
    goes_on (some g) = not (is_over g.status)

-- `requireStudentCanCreateGroup`
unfoldable pub require_can_create_group : Option Text → Text → Store → Result Enrolled
unfolding require_student_enrolled
require_can_create_group user_id subject_id s = do
  e ← require_student_enrolled user_id subject_id s
  require e.subject.is_open (bad_request "This subject is closed for group creation.")
  require e.subject.group_enabled (bad_request "This subject does not allow group creation.")
  require (not (any (is_current_member e.student.user_id e.subject.id s) s.members))
      (bad_request "You are already assigned to a group for this subject.")
  ok e

-- `group.sectionId && group.sectionId !== enrollment.sectionId`
abbrev pub is_other_section : Option Text → Option Text → Bool
is_other_section none section = false
is_other_section (some g) section = not (is_empty g) && not (option_eq (some g) section)

-- `Number(maxGroupSize || 1)`
abbrev pub size_or_one : ℕ → ℕ
size_or_one n = if n == 0 then 1 else n

-- `requireStudentCanJoinGroup`
unfoldable pub require_can_join_group :
    ⦃t : CaseTable⦄ → Option Text → Text → Option Text → Store → Result (Enrolled × Group)
unfolding require_student_enrolled
require_can_join_group user_id subject_id invite_code s = do
  e ← require_student_enrolled user_id subject_id s
  require e.subject.is_open (bad_request "This subject is closed for group membership.")
  require e.subject.group_enabled (bad_request "This subject does not allow group membership.")
  let code = to_upper (trim (nullish invite_code []))
  require (not (is_empty code)) (bad_request "Invite code is required.")
  g ←
      assert_found
        (find (λ (x : Group). text_eq x.invite_code code && text_eq x.subject_id e.subject.id)
          s.groups)
        (not_found "Invite code not found for this subject.")
  require (is_joinable g.status) (bad_request "This group is not accepting new members.")
  require (not (is_other_section g.section_id e.enrollment.section_id))
      (bad_request "This invite code belongs to a different section.")
  require (ltb (length (members_of g.id s)) (size_or_one e.subject.max_group_size))
      (bad_request "This group is already full.")
  require (not (any (is_current_member e.student.user_id e.subject.id s) s.members))
      (bad_request "You are already assigned to a group for this subject.")
  ok (e, g)
