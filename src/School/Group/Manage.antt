-- ===== src/School/Group/Manage.antt =====
-- What a teacher or an administrator does to a group: backend/src/subjects/subject-groups.service.ts
-- and backend/src/admin/admin-groups.service.ts. The two share their steps, and differ in who may, in
-- two exceptions and in the audit row.
use proj_track_official.Prelude.{
  ℕ, Bool, ◌&&◌, not, Option, none, some, List, [], ◌∷◌, any, find, keep, map, length, leb, ltb,
  if◌then◌else◌,
}
use proj_track_official.Prelude.Text.{Text, codes, text_eq, is_empty, option_eq}
use proj_track_official.Prelude.Table.{update_many, update_one, delete_many}
use proj_track_official.Prelude.Outcome.{
  Error, bad_request, not_found, Result, Handler, ◌>>=◌, ◌>>◌, get, modify, require, return, lift,
}
use proj_track_official.School.Store.{
  GroupStatus, pending, active, locked, Group, MemberRole, leader, member, Member, Store,
  find_subject, find_group, members_of,
}
use proj_track_official.School.Access.{assert_found, require_teacher_owns_subject}
use proj_track_official.School.Group.Rows.{
  require_user_id, is_locked, min_size, set_status, record_audit,
}

-- `requireGroup` of the administrator's service
unfoldable pub require_group : Text → Store → Result Group
require_group id s = assert_found (find_group id s) (not_found "Group not found.")

abbrev pub is_group_of : Text → Text → Group → Bool
is_group_of subject_id id g = text_eq g.id id && text_eq g.subject_id subject_id

-- `ensureTeacherOwnsSubject`, with `requireTeacherOwnedGroup`
unfoldable pub require_teacher_owned_group : Text → Text → Option Text → Handler Store Group
unfolding require_user_id require_teacher_owns_subject
require_teacher_owned_group subject_id id teacher_id = do
  user ← lift (require_user_id teacher_id)
  s ← get
  owned ← lift (require_teacher_owns_subject (some user) subject_id s)
  subject ← lift (assert_found (find_subject subject_id s) (not_found "Subject not found."))
  lift (assert_found (find (is_group_of subject_id id) s.groups) (not_found "Group not found."))

-- Who acts: the role and the id that the audit row names.
pub record Actor : Type 0 where
  pub role : Text
  pub id : Option Text

abbrev pub admin : Actor
admin = record { role = codes "ADMIN"; id = none }

abbrev pub as_teacher : Option Text → Actor
as_teacher id = record { role = codes "TEACHER"; id = id }

-- The part of approving and of unlocking after the group is found.
unfoldable pub activate : Actor → Text → Group → Handler Store GroupStatus
activate actor action g = do
  s ← get
  require (leb (min_size (find_subject g.subject_id s)) (length (members_of g.id s)))
      (bad_request "Group is too small to become active.")
  modify (set_status g.id active)
  record_audit actor.role actor.id action g.id
  return active

-- The part of locking after the group is found.
unfoldable pub lock : Actor → Group → Handler Store GroupStatus
lock actor g = do
  modify (set_status g.id locked)
  record_audit actor.role actor.id (codes "GROUP_LOCKED") g.id
  return locked

abbrev pub with_role : MemberRole → Member → Member
with_role role m = record m { role = role }

-- The two `groupMember.updateMany` that pass the role of the leader on.
abbrev pub give_lead : Text → Text → List Member → List Member
give_lead group user members =
    update_many (λ m. text_eq m.group_id group && text_eq m.student_id user) (with_role leader)
      (update_many (λ m. text_eq m.group_id group) (with_role member) members)

abbrev pub led_by : Option Text → Group → Group
led_by user g = record g { leader_id = user }

-- `members.find((item) => item.studentId === memberId)`, with `!memberId`
abbrev pub chosen : Option Text → List Member → Option Text
chosen none members = none
chosen (some id) members =
    if not (is_empty id) && any (λ m. text_eq m.student_id id) members then some id else none

-- The part of assigning a leader after the group is found.
unfoldable pub assign_leader : Actor → Error → Group → Option Text → Handler Store Text
assign_leader actor refusal g member_id = do
  require (not (is_locked g.status)) refusal
  s ← get
  id ←
      lift (
        assert_found (chosen member_id (members_of g.id s))
          (not_found "Member not found in group."))
  modify (λ s. record s {
    groups = update_one (λ x. text_eq x.id g.id) (led_by (some id)) s.groups;
    members = give_lead g.id id s.members;
  })
  record_audit actor.role actor.id (codes "GROUP_LEADER_ASSIGNED") g.id
  return id

-- `remainingMembers`
abbrev pub others : Text → List Member → List Member
others user members = keep (λ m. not (text_eq m.student_id user)) members

-- `remainingMembers[0]?.studentId ?? null`
abbrev pub first_student : List Member → Option Text
first_student [] = none
first_student (m ∷ members) = some m.student_id

-- `nextLeaderId`
abbrev pub next_leader : Group → Text → List Member → Option Text
next_leader g user remaining =
    if option_eq g.leader_id (some user) then first_student remaining else g.leader_id

-- `nextStatus`
abbrev pub next_status : Group → ℕ → List Member → GroupStatus
next_status g least remaining = if leb least (length remaining) then g.status else pending

-- `if (nextLeaderId)`
abbrev pub pass_lead : Text → Option Text → List Member → List Member
pass_lead group none members = members
pass_lead group (some user) members =
    if is_empty user then members else give_lead group user members

-- The transaction of the removal.
abbrev pub take_out : Text → Text → Option Text → GroupStatus → Store → Store
take_out group user next status s = record s {
  groups =
      update_one (λ x. text_eq x.id group) (λ x. record x { leader_id = next; status = status })
        s.groups;
  members =
      pass_lead group next
        (delete_many (λ m. text_eq m.group_id group && text_eq m.student_id user) s.members);
}

pub record Removal : Type 0 where
  pub leader_user_id : Option Text
  pub members : List Text
  pub status : GroupStatus

-- The part of removing a member after the group is found.
unfoldable pub remove_member : Actor → Error → Group → Text → Handler Store Removal
remove_member actor refusal g user = do
  s ← get
  let members = members_of g.id s
  require (any (λ m. text_eq m.student_id user) members) (not_found "Member not found in group.")
  require (ltb 1 (length members)) refusal
  let remaining = others user members
  let next = next_leader g user remaining
  let status = next_status g (min_size (find_subject g.subject_id s)) remaining
  modify (take_out g.id user next status)
  record_audit actor.role actor.id (codes "GROUP_MEMBER_REMOVED") g.id
  return (record {
    leader_user_id = next;
    members = map (λ m. m.student_id) remaining;
    status = status;
  })
