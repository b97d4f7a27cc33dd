-- ===== src/School/Group/Join.antt =====
-- Joining a group by its invite code: `joinGroupByCode` of
-- backend/src/repositories/subject.repository.ts and backend/src/subjects/subject-groups.service.ts.
-- What is read before the transaction is read from `seen`, which other requests may have made stale by
-- the time the transaction has its lock.
use proj_track_official.Prelude.{
  ◌+◌, Bool, true, false, not, Option, some, [], any, count, ltb, if◌then◌else◌,
}
use proj_track_official.Prelude.Text.{Text, is_empty, trim, falsy, CaseTable}
use proj_track_official.Prelude.Outcome.{
  bad_request, not_found, conflict, Handler, ◌>>=◌, ◌>>◌, get, modify, require, lift, transaction,
}
use proj_track_official.School.Store.{
  GroupStatus, pending, active, locked, Group, member, Store, find_subject, find_group,
}
use proj_track_official.School.Access.{assert_found}
use proj_track_official.School.Membership.{require_can_join_group}
use proj_track_official.School.Group.Rows.{
  require_user_id, is_member_of, is_seated, is_locked, allows_groups, max_size, group_status_for,
  set_status, add_member, clashes,
}
use proj_track_official.School.Group.Checks.{join_prechecks}

abbrev pub same_status : GroupStatus → GroupStatus → Bool
same_status pending pending = true
same_status active active = true
same_status locked locked = true
same_status _ _ = false

-- `if (lockedGroup.status !== nextStatus) group.update(…)`
abbrev pub settle_status : Group → GroupStatus → Store → Store
settle_status g status s = if same_status g.status status then s else set_status g.id status s

-- The transaction of `joinGroupByCode`, which holds the lock of the group.
unfoldable pub join_locked : Text → Text → Handler Store (Unit {0})
unfolding group_status_for
join_locked group_id user = transaction (do
  s ← get
  g ← lift (
      assert_found (find_group group_id s)
        (not_found "Group not found for the provided invite code."))
  let subject = find_subject g.subject_id s
  require (allows_groups subject) (bad_request "This subject does not allow group membership.")
  require (not (is_locked g.status))
      (bad_request "This group is locked and cannot accept new members.")
  require (not (any (is_member_of g.subject_id user) s.members))
      (conflict "You are already assigned to a group for this subject.")
  require (ltb (count (is_seated g.id) s.members) (max_size subject))
      (bad_request "This group is already full.")
  require (not (any (clashes g user) s.members))
      (conflict "You are already assigned to a group for this subject.")
  modify (add_member g user member)
  modify (settle_status g (group_status_for subject (count (is_seated g.id) s.members + 1))))

-- `SubjectGroupsService.joinGroupByCode`, with the repository's
unfoldable pub join_group_by_code :
    ⦃t : CaseTable⦄ → Store → Option Text → Option Text → Option Text → Handler Store Group
unfolding require_user_id require_can_join_group join_prechecks join_locked
join_group_by_code seen code subject_id user_id = do
  user ← lift (require_user_id user_id)
  require (not (is_empty (trim (falsy subject_id [])))) (bad_request "Subject is required.")
  allowed ← lift (require_can_join_group (some user) (trim (falsy subject_id [])) code seen)
  g ← lift (join_prechecks (falsy code []) (trim (falsy subject_id [])) user seen)
  join_locked g.id user
  s ← get
  lift (assert_found (find_group g.id s) (not_found "Invite code not found."))
