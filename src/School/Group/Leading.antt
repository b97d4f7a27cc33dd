-- ===== src/School/Group/Leading.antt =====
-- A group's leader: what assigning and removing leave.
use proj_track_official.Prelude.{
  ◌≤◌, ◌≡◌, refl, ◌∙◌, Bool, true, false, not, ◌&&◌, some, List, any, count, arith, Bool-cases, inl,
  inr,
}
use proj_track_official.Prelude.Text.{Text, text_eq, text_eq_refl, is_empty}
use proj_track_official.Prelude.Table.{
  update_many, count-update_many, find-update_one, count-update_many_zero,
}
use proj_track_official.Prelude.Counts.{count-keep, any-count, count-update_many_test}
use proj_track_official.Prelude.Outcome.{Error, final, succeeded}
use proj_track_official.School.Store.{
  Group, Member, MemberRole, member, leader, Store, find_group, members_of,
}
use proj_track_official.School.Group.Manage.{Actor, assign_leader, give_lead, led_by, with_role}

abbrev pub leads : MemberRole → Bool
leads leader = true
leads member = false

-- The student's row in the group.
abbrev pub is_row_of : Text → Text → Member → Bool
is_row_of group user m = text_eq m.group_id group && text_eq m.student_id user

-- A row of another student that has the role of the leader.
abbrev pub is_other_leader : Text → Text → Member → Bool
is_other_leader group user m =
    text_eq m.group_id group && not (text_eq m.student_id user) && leads m.role

abbrev pub is_leading : Text → Text → Member → Bool
is_leading group user m = is_row_of group user m && leads m.role

count-give_lead_other :
    (group user : Text) (members : List Member)
    → count (is_other_leader group user) (give_lead group user members) ≡ 0
count-give_lead_other group user members =
    count-update_many (is_other_leader group user) (is_row_of group user) (with_role leader)
      (λ m h. ground arith) (update_many (λ m. text_eq m.group_id group) (with_role member) members)
    ∙ count-update_many_zero (is_other_leader group user) (λ m. text_eq m.group_id group)
        (with_role member) (λ m h. ground arith) (λ m h. ground arith) members

count-give_lead :
    (group user : Text) (members : List Member)
    → count (is_leading group user) (give_lead group user members)
      ≡ count (is_row_of group user) members
count-give_lead group user members =
    count-update_many_test (is_leading group user) (is_row_of group user) (with_role leader)
      (λ m h. ground arith) (λ m h. ground arith)
      (update_many (λ m. text_eq m.group_id group) (with_role member) members)
    ∙ count-update_many (is_row_of group user) (λ m. text_eq m.group_id group) (with_role member)
        (λ m h. refl) members

-- When a leader is assigned, the group's row names the chosen student, nobody else in the group has the
-- role of its leader, and a row of that student in the group has it.
pub assign_leader-leads :
    (actor : Actor) (refusal : Error) (g : Group) (user : Text) (s : Store)
    → find_group g.id s ≡ some g
    → succeeded (assign_leader actor refusal g (some user) s) ≡ true
    → (find_group g.id (final (assign_leader actor refusal g (some user) s))
        ≡ some (record g { leader_id = some user }))
      × (count
            (is_other_leader g.id user)
            (final (assign_leader actor refusal g (some user) s)).members
          ≡ 0)
      × (1
          ≤ count
              (is_leading g.id user)
              (final (assign_leader actor refusal g (some user) s)).members)
unfolding assign_leader
assign_leader-leads actor refusal g user s here ok =
    let changed =
      find-update_one (λ (x : Group). text_eq x.id g.id) (led_by (some user)) s.groups here
        (text_eq_refl g.id) in
    let others = count-give_lead_other g.id user s.members in
    let own = count-give_lead g.id user s.members in
    let row = any-count (λ (m : Member). text_eq m.student_id user) (members_of g.id s) in
    let rows =
      count-keep (λ (m : Member). text_eq m.student_id user) (λ m. text_eq m.group_id g.id)
        s.members in
    elim (Bool-cases (any (λ m. text_eq m.student_id user) (members_of g.id s))) [
      | inr absent ↦ absurd (ground arith)
      | inl in_it ↦ elim (Bool-cases (is_empty user)) [
        | inl nameless ↦ absurd (ground arith)
        | inr named ↦ (ground arith, ground arith, ground arith)
      ]
    ]
