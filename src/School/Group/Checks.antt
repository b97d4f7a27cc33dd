-- ===== src/School/Group/Checks.antt =====
-- What `createGroup` and `joinGroupByCode` of backend/src/repositories/subject.repository.ts read
-- before their transactions.
use proj_track_official.Prelude.{Bool, false, ◌&&◌, not, Option, some, any, find, ltb, length}
use proj_track_official.Prelude.Text.{Text, text_eq, is_empty, trim, CaseTable, to_upper}
use proj_track_official.Prelude.Outcome.{bad_request, forbidden, not_found, conflict, Result, ok}
use proj_track_official.Prelude.Check.{◌>>=◌, ◌>>◌, require}
use proj_track_official.School.Store.{
  StudentProfile, Subject, Group, Store, find_student, find_subject, find_enrollment, members_of,
}
use proj_track_official.School.Access.{assert_found}
use proj_track_official.School.Group.Rows.{is_member_of, is_locked, allows_groups, max_size}

-- `createGroup`, up to its loop
unfoldable pub create_prechecks : Text → Text → Text → Store → Result (Subject × StudentProfile)
create_prechecks subject_id name user s = do
  require (not (is_empty (trim name))) (bad_request "Group name is required.")
  subject ← assert_found (find_subject subject_id s) (not_found "Subject not found.")
  require subject.group_enabled (bad_request "This subject does not allow group creation.")
  require (not (any (is_member_of subject_id user) s.members))
      (conflict "You are already assigned to a group for this subject.")
  profile ←
      assert_found (find_student user s)
        (forbidden "Student profile is required to create a group.")
  enrollment ←
      assert_found (find_enrollment profile.id subject_id s)
        (forbidden "You must be enrolled in this subject to create a group.")
  ok (subject, profile)

-- `group.sectionId && profile.sectionId && group.sectionId !== profile.sectionId`
abbrev pub is_elsewhere : Option Text → Option Text → Bool
is_elsewhere (some g) (some p) = not (is_empty g) && not (is_empty p) && not (text_eq g p)
is_elsewhere _ _ = false

-- `joinGroupByCode`, between its lookup and its transaction
unfoldable pub check_joinable : Group → Text → Store → Result Group
check_joinable g user s = do
  let subject = find_subject g.subject_id s
  require (allows_groups subject) (bad_request "This subject does not allow group membership.")
  require (not (is_locked g.status))
      (bad_request "This group is locked and cannot accept new members.")
  require (ltb (length (members_of g.id s)) (max_size subject))
      (bad_request "This group is already full.")
  require (not (any (is_member_of g.subject_id user) s.members))
      (conflict "You are already assigned to a group for this subject.")
  profile ←
      assert_found (find_student user s) (forbidden "Student profile is required to join a group.")
  enrollment ←
      assert_found (find_enrollment profile.id g.subject_id s)
        (forbidden "You must be enrolled in this subject to join this group.")
  require (not (is_elsewhere g.section_id profile.section_id))
      (bad_request "This invite code belongs to a different section.")
  ok g

-- `joinGroupByCode`, up to its transaction
unfoldable pub join_prechecks : ⦃t : CaseTable⦄ → Text → Text → Text → Store → Result Group
unfolding check_joinable
join_prechecks code subject_id user s = do
  require (not (is_empty (to_upper (trim code)))) (bad_request "Invite code is required.")
  g ←
      assert_found
        (find
          (λ (x : Group).
            text_eq x.invite_code (to_upper (trim code)) && text_eq x.subject_id subject_id)
          s.groups)
        (not_found "Group not found for the provided invite code.")
  check_joinable g user s
