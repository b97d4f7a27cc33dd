-- ===== src/School/Group/Handlers.antt =====
-- The handlers of backend/src/subjects/subject-groups.service.ts, which begin with the teacher's
-- ownership, and of backend/src/admin/admin-groups.service.ts, over the shared steps.
use proj_track_official.Prelude.{Option}
use proj_track_official.Prelude.Text.{Text, codes}
use proj_track_official.Prelude.Outcome.{bad_request, not_found, Handler, ◌>>=◌, get, lift}
use proj_track_official.School.Store.{GroupStatus, Store}
use proj_track_official.School.Group.Manage.{
  require_group, require_teacher_owned_group, admin, as_teacher, activate, lock, assign_leader,
  remove_member, Removal,
}

-- `approveGroup` of the administrator's service
unfoldable pub approve_group : Text → Handler Store GroupStatus
unfolding require_group activate
approve_group id = do
  s ← get
  g ← lift (require_group id s)
  activate admin (codes "GROUP_APPROVED") g

-- `teacherApproveGroup`
unfoldable pub teacher_approve_group : Text → Text → Option Text → Handler Store GroupStatus
unfolding require_teacher_owned_group activate
teacher_approve_group subject_id id actor_id = do
  g ← require_teacher_owned_group subject_id id actor_id
  activate (as_teacher actor_id) (codes "GROUP_APPROVED") g

-- `unlockGroup` of the administrator's service
unfoldable pub unlock_group : Text → Handler Store GroupStatus
unfolding require_group activate
unlock_group id = do
  s ← get
  g ← lift (require_group id s)
  activate admin (codes "GROUP_UNLOCKED") g

-- `teacherUnlockGroup`
unfoldable pub teacher_unlock_group : Text → Text → Option Text → Handler Store GroupStatus
unfolding require_teacher_owned_group activate
teacher_unlock_group subject_id id actor_id = do
  g ← require_teacher_owned_group subject_id id actor_id
  activate (as_teacher actor_id) (codes "GROUP_UNLOCKED") g

-- `lockGroup` of the administrator's service
unfoldable pub lock_group : Text → Handler Store GroupStatus
unfolding require_group lock
lock_group id = do s ← get; g ← lift (require_group id s); lock admin g

-- `teacherLockGroup`
unfoldable pub teacher_lock_group : Text → Text → Option Text → Handler Store GroupStatus
unfolding require_teacher_owned_group lock
teacher_lock_group subject_id id actor_id = do
  g ← require_teacher_owned_group subject_id id actor_id
  lock (as_teacher actor_id) g

-- `assignGroupLeader` of the administrator's service
unfoldable pub assign_group_leader : Text → Option Text → Handler Store Text
unfolding require_group assign_leader
assign_group_leader id member_id = do
  s ← get
  g ← lift (require_group id s)
  assign_leader admin (not_found "Locked groups cannot change leaders.") g member_id

-- `teacherAssignGroupLeader`
unfoldable pub teacher_assign_group_leader :
    Text → Text → Option Text → Option Text → Handler Store Text
unfolding require_teacher_owned_group assign_leader
teacher_assign_group_leader subject_id id member_id actor_id = do
  g ← require_teacher_owned_group subject_id id actor_id
  assign_leader (as_teacher actor_id) (bad_request "Locked groups cannot change leaders.") g
      member_id

-- `removeGroupMember` of the administrator's service
unfoldable pub remove_group_member : Text → Text → Handler Store Removal
unfolding require_group remove_member
remove_group_member id member_id = do
  s ← get
  g ← lift (require_group id s)
  remove_member admin (not_found "Cannot remove the only remaining member from the group.") g
      member_id

-- `teacherRemoveGroupMember`
unfoldable pub teacher_remove_group_member :
    Text → Text → Text → Option Text → Handler Store Removal
unfolding require_teacher_owned_group remove_member
teacher_remove_group_member subject_id id member_id actor_id = do
  g ← require_teacher_owned_group subject_id id actor_id
  remove_member (as_teacher actor_id)
      (bad_request "Cannot remove the only remaining member from the group.") g member_id
