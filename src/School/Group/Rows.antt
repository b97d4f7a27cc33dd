-- ===== src/School/Group/Rows.antt =====
-- The reads and writes of groups and their members that the services share.
use proj_track_official.Prelude.{
  ℕ, Bool, true, false, ◌&&◌, ◌||◌, not, Option, none, some, [], ◌∷◌, ◌++◌, leb, if◌then◌else◌,
}
use proj_track_official.Prelude.Text.{Text, text_eq, trim, falsy, is_empty}
use proj_track_official.Prelude.Table.{update_one}
use proj_track_official.Prelude.Outcome.{unauthorized, Result, ok, Handler, modify}
use proj_track_official.Prelude.Check.{◌>>◌, require}
use proj_track_official.School.Store.{
  Subject, GroupStatus, pending, active, locked, Group, MemberRole, present, Member, Store,
}
use proj_track_official.School.Access.{is_present}
use proj_track_official.School.Membership.{size_or_one}

-- `requireAuthenticatedUserId`
unfoldable pub require_user_id : Option Text → Result Text
require_user_id user_id = do
  require (not (is_empty (trim (falsy user_id []))))
      (unauthorized "Authenticated user context is required.")
  ok (trim (falsy user_id []))

-- A row of the student in the subject, whatever its status.
abbrev pub is_member_of : Text → Text → Member → Bool
is_member_of subject student m = text_eq m.subject_id subject && text_eq m.student_id student

-- A row that takes a seat in the group: `status: { not: 'REMOVED' }`.
abbrev pub is_seated : Text → Member → Bool
is_seated group m = text_eq m.group_id group && is_present m.status

abbrev pub is_locked : GroupStatus → Bool
is_locked locked = true
is_locked _ = false

-- `subject?.groupEnabled`
abbrev pub allows_groups : Option Subject → Bool
allows_groups none = false
allows_groups (some x) = x.group_enabled

-- `Math.max(1, Number(subject?.minGroupSize || 1))`
abbrev pub min_size : Option Subject → ℕ
min_size none = 1
min_size (some x) = size_or_one x.min_group_size

-- `Math.max(1, Number(subject?.maxGroupSize || 1))`
abbrev pub max_size : Option Subject → ℕ
max_size none = 1
max_size (some x) = size_or_one x.max_group_size

-- `groupStatusForMemberCount`
unfoldable pub group_status_for : Option Subject → ℕ → GroupStatus
group_status_for subject members = if leb (min_size subject) members then active else pending

-- `group.update({ where: { id }, data: { status } })`
abbrev pub set_status : Text → GroupStatus → Store → Store
set_status id status s = record s {
  groups = update_one (λ g. text_eq g.id id) (λ g. record g { status = status }) s.groups;
}

abbrev pub new_member : Group → Text → MemberRole → Member
new_member g user role = record {
  group_id = g.id;
  subject_id = g.subject_id;
  student_id = user;
  role = role;
  status = present;
}

-- `groupMember.create`
abbrev pub add_member : Group → Text → MemberRole → Store → Store
add_member g user role s = record s { members = s.members ++ new_member g user role ∷ [] }

-- The two unique indexes of `GroupMember`.
abbrev pub clashes : Group → Text → Member → Bool
clashes g user m =
    text_eq m.student_id user && (text_eq m.group_id g.id || text_eq m.subject_id g.subject_id)

-- `auditLogs.record`
abbrev pub record_audit : Text → Option Text → Text → Text → Handler Store (Unit {0})
record_audit role actor action entity = modify (λ s. record s {
  audits =
      s.audits
      ++ record { actor_role = role; actor_id = actor; action = action; entity_id = entity } ∷ [];
})
