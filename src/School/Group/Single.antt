-- ===== src/School/Group/Single.antt =====
-- Nobody is in two groups of one subject: what creating and joining keep.
use proj_track_official.Prelude.{
  ℕ, zero, suc, ◌≤◌, ◌≡◌, false, Option, none, some, [], ◌∷◌, any, count, arith, Option-cases,
  Bool-cases, inl, inr, subst,
}
use proj_track_official.Prelude.Text.{Text, text_eq_iff, trim}
use proj_track_official.Prelude.Table.{count-append, count-any_none}
use proj_track_official.Prelude.Outcome.{Handler, final}
use proj_track_official.Prelude.Keeps.{Keeps, Keeps-bind, Keeps-get, Keeps-lift}
use proj_track_official.School.Store.{
  StudentProfile, Subject, Group, MemberRole, member, leader, Store, find_group,
}
use proj_track_official.School.Membership.{require_can_create_group}
use proj_track_official.School.Group.Rows.{is_member_of, new_member, add_member, require_user_id}
use proj_track_official.School.Group.Checks.{create_prechecks}
use proj_track_official.School.Group.Create.{
  Draw, new_group, is_refused, create_row, try_create, unless_made, create_attempts,
  create_in_repository, create_group,
}
use proj_track_official.School.Group.Join.{join_locked}

-- How many memberships the student has in the subject, of any status.
abbrev pub memberships : Text → Text → Store → ℕ
memberships subject student s = count (is_member_of subject student) s.members

memberships-add_member :
    (subject student user : Text) (g : Group) (role : MemberRole) (s : Store)
    → any (is_member_of g.subject_id user) s.members ≡ false
    → memberships subject student s ≤ 1
    → memberships subject student (add_member g user role s) ≤ 1
memberships-add_member subject student user g role s free few =
    let sum = count-append (is_member_of subject student) s.members (new_member g user role ∷ []) in
    elim (Bool-cases (is_member_of subject student (new_member g user role))) [
      | inr other ↦ ground arith
      | inl same ↦
          let subject_key = text_eq_iff g.subject_id subject in
          let student_key = text_eq_iff user student in
          let subjects : g.subject_id ≡ subject = subject_key.0 (ground arith) in
          let students : user ≡ student = student_key.0 (ground arith) in
          let nothing : count (is_member_of subject student) s.members ≡ 0 =
            subst (λ x. count (is_member_of x student) s.members ≡ 0) subjects
              (subst (λ x. count (is_member_of g.subject_id x) s.members ≡ 0) students
                (count-any_none (is_member_of g.subject_id user) s.members free)) in
          ground arith
    ]

-- To join a group, whatever was read before its transaction, leaves nobody with two memberships in a
-- subject.
pub join_locked-memberships :
    (subject student group_id user : Text) (s : Store)
    → memberships subject student s ≤ 1
    → memberships subject student (final (join_locked group_id user s)) ≤ 1
unfolding join_locked
join_locked-memberships subject student group_id user s few =
    elim (Option-cases (find_group group_id s)) [
      | inl missing ↦ ground arith
      | inr (g, found) ↦
          let added = memberships-add_member subject student user g member s in ground arith
    ]

Keeps-unless_made :
    {P : Store → Type 0} {next : Handler Store Group}
    → Keeps P next
    → (made : Option Group) → Keeps P (unless_made next made)
Keeps-unless_made keeps none = keeps
Keeps-unless_made keeps (some g) = record { kept = λ s holds. holds }

module _ (subject : Subject) (profile : StudentProfile) (subject_id name user : Text) where
  try_create-memberships :
      (x student : Text) (draw : Draw) (s : Store)
      → memberships x student s ≤ 1
      → memberships x student (final (try_create subject profile subject_id name user draw s)) ≤ 1
  unfolding try_create create_row new_group
  try_create-memberships x student draw s few =
      elim (Bool-cases (any (is_member_of subject_id user) s.members)) [
        | inl taken ↦ ground arith
        | inr free ↦
            let row = new_group subject profile subject_id name user draw in
            let added = memberships-add_member x student user row leader s free few in
            elim (Bool-cases (is_refused row user s)) [
              | inl refused ↦ ground arith
              | inr fresh ↦ ground arith
            ]
      ]

  create_attempts-memberships :
      (x student : Text) (draws : ℕ → Draw) (left : ℕ)
      → Keeps
          (λ s. memberships x student s ≤ 1)
          (create_attempts subject profile subject_id name user left draws)
  unfolding create_attempts
  create_attempts-memberships x student draws zero = record { kept = λ s few. few }
  create_attempts-memberships x student draws (suc left) =
      Keeps-bind (record { kept = try_create-memberships x student (draws left) })
        (Keeps-unless_made (create_attempts-memberships x student draws left))

-- To create a group leaves nobody with two memberships in a subject, whatever invite codes are drawn.
pub create_group-memberships :
    (x student subject_id name : Text) (leader_user_id : Option Text) (draws : ℕ → Draw) (s : Store)
    → memberships x student s ≤ 1
    → memberships x student (final (create_group subject_id name leader_user_id draws s)) ≤ 1
unfolding create_group create_in_repository
create_group-memberships x student subject_id name leader_user_id draws s few = keeps.kept s few
  where
    keeps :
        Keeps (λ s. memberships x student s ≤ 1) (create_group subject_id name leader_user_id draws)
    keeps = Keeps-bind (Keeps-lift (require_user_id leader_user_id)) λ user.
        Keeps-bind Keeps-get λ now.
          Keeps-bind (Keeps-lift (require_can_create_group (some user) subject_id now)) λ allowed.
            Keeps-bind Keeps-get λ seen.
              Keeps-bind (Keeps-lift (create_prechecks subject_id name user seen))
                λ (subject, profile).
                  create_attempts-memberships subject profile subject_id (trim name) user x student
                    draws 5
