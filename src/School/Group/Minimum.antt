-- ===== src/School/Group/Minimum.antt =====
-- An active group has at least the members that its subject asks for.
use proj_track_official.Prelude.{
  ℕ, ◌≤◌, ◌+◌, ◌≡◌, ◌⊎◌, if◌then◌else◌, ap, refl, sym, ◌∙◌, Bool, true, false, not, ◌&&◌, Option,
  none, some, List, [], ◌∷◌, any, find, keep, count, length, ltb, leb, arith, Option-cases,
  Bool-cases, inl, inr, subst, find_sound,
}
use proj_track_official.Prelude.Text.{Text, text_eq, text_eq_iff, text_eq_refl, is_empty}
use proj_track_official.Prelude.Table.{
  update_one, update_many, delete_many, count-append, count-update_many, find-update_one,
  count_mono,
}
use proj_track_official.Prelude.Counts.{
  find-update_one_other, count-delete_many, length-keep, count-keep, count_same,
}
use proj_track_official.Prelude.Outcome.{Error, final}
use proj_track_official.School.Store.{
  Subject, GroupStatus, active, pending, locked, Group, Member, member, leader, Store, find_group,
  find_subject, members_of,
}
use proj_track_official.School.Group.Rows.{
  is_seated, min_size, set_status, add_member, new_member, group_status_for,
}
use proj_track_official.School.Group.Join.{join_locked}
use proj_track_official.School.Group.Manage.{
  Actor, with_role, activate, lock, remove_member, pass_lead, others, next_leader, next_status,
}

abbrev pub is_active : GroupStatus → Bool
is_active active = true
is_active _ = false

abbrev pub is_in : Text → Member → Bool
is_in group m = text_eq m.group_id group

-- Is a group that was looked up active with too few members?
abbrev pub short : List Subject → List Member → Option Group → Bool
short subjects members none = false
short subjects members (some g) =
    is_active g.status
    && ltb (count (is_in g.id) members) (min_size (find (λ x. text_eq x.id g.subject_id) subjects))

abbrev pub is_short : Text → Store → Bool
is_short group s = short s.subjects s.members (find_group group s)

find_group-other :
    (id other : Text) (change : Group → Group) (groups : List Group)
    → ((g : Group) → (change g).id ≡ g.id)
    → text_eq id other ≡ false
    → find (λ g. text_eq g.id id) (update_one (λ g. text_eq g.id other) change groups)
      ≡ find (λ g. text_eq g.id id) groups
find_group-other id other change groups same differ =
    find-update_one_other (λ g. text_eq g.id id) (λ g. text_eq g.id other) change (λ g h. apart g h)
      (λ g h. rw (same g) (apart g h)) groups
  where
    apart : (g : Group) → text_eq g.id other ≡ true → text_eq g.id id ≡ false
    apart g h =
        let is_other = text_eq_iff g.id other in
        let is_id = text_eq_iff g.id id in
        let equal = text_eq_iff id other in
        elim (Bool-cases (text_eq g.id id)) [
          | inr e ↦ e
          | inl e ↦ absurd (let p : id ≡ other = sym (is_id.0 e) ∙ is_other.0 h in ground arith)
        ]

-- A change of one group's row and of the members: the other groups stay as they were, and the group
-- itself is not short.
module _ (change : Group → Group) (same : (g : Group) → (change g).id ≡ g.id) where
  is_short-change :
      (id : Text) (g : Group) (members : List Member) (s : Store)
      → find_group g.id s ≡ some g
      → ((h : Group)
          → text_eq h.id g.id ≡ false
          → count (is_in h.id) s.members ≤ count (is_in h.id) members)
      → short s.subjects members (some (change g)) ≡ false
      → is_short id s ≡ false
      → is_short id (record s {
        groups = update_one (λ x. text_eq x.id g.id) change s.groups;
        members = members;
      })
        ≡ false
  is_short-change id g members s here more itself before = elim (Bool-cases (text_eq id g.id)) [
    | inl e ↦
        let is_key = text_eq_iff id g.id in
        let changed =
          find-update_one (λ (x : Group). text_eq x.id g.id) change s.groups here
            (rw (same g) (text_eq_refl g.id)) in
        rw (is_key.0 e, changed) itself
    | inr e ↦
        rw (find_group-other id g.id change s.groups same e)
          (elim (Option-cases (find_group id s)) [
            | inl missing ↦ rw missing refl
            | inr (h, found) ↦
                let is_id = find_sound (λ (x : Group). text_eq x.id id) s.groups found in
                let key = text_eq_iff h.id id in
                let count_more = more h (rw (key.0 is_id) e) in ground arith
          ])
  ]

abbrev with_status : GroupStatus → Group → Group
with_status status g = record g { status = status }

set_status-is_short :
    (id : Text) (g : Group) (status : GroupStatus) (s : Store)
    → find_group g.id s ≡ some g
    → short s.subjects s.members (some (with_status status g)) ≡ false
    → is_short id s ≡ false
    → is_short id (set_status g.id status s) ≡ false
set_status-is_short id g status s here itself before =
    is_short-change (with_status status) (λ g. refl) id g s.members s here (λ h differ. omega arith)
      itself before

-- To approve, to unlock or to lock a group makes no group active with fewer members than its subject
-- asks for.
pub activate-is_short :
    (id : Text) (actor : Actor) (action : Text) (g : Group) (s : Store)
    → find_group g.id s ≡ some g
    → is_short id s ≡ false
    → (is_short id (final (activate actor action g s)) ≡ false)
      × (is_short id (final (lock actor g s)) ≡ false)
unfolding activate lock
activate-is_short id actor action g s here before = (
  elim (Bool-cases (leb (min_size (find_subject g.subject_id s)) (length (members_of g.id s)))) [
    | inr few ↦ ground arith
    | inl enough ↦
        let size = length-keep (is_in g.id) s.members in
        let kept = set_status-is_short id g active s here (ground arith) before in ground arith
  ],
  set_status-is_short id g locked s here refl before,
)

-- The members of a group after one of them is taken out.
abbrev left_after : Text → Text → Option Text → List Member → List Member
left_after group user next members =
    pass_lead group next
      (delete_many (λ m. text_eq m.group_id group && text_eq m.student_id user) members)

count-pass_lead :
    (id group : Text) (next : Option Text) (members : List Member)
    → count (is_in id) (pass_lead group next members) ≡ count (is_in id) members
count-pass_lead id group none members = refl
count-pass_lead id group (some user) members = elim (Bool-cases (is_empty user)) [
  | inl e ↦ rw e refl
  | inr e ↦
      let first =
        count-update_many (is_in id) (λ m. text_eq m.group_id group) (with_role member)
          (λ m h. refl) members in
      let second =
        count-update_many (is_in id) (λ m. text_eq m.group_id group && text_eq m.student_id user)
          (with_role leader) (λ m h. refl)
          (update_many (λ m. text_eq m.group_id group) (with_role member) members) in
      rw e (second ∙ first)
]

-- As many members are left as there were others.
count-left_after :
    (group user : Text) (next : Option Text) (members : List Member)
    → count (is_in group) (left_after group user next members)
      ≡ length (others user (keep (is_in group) members))
count-left_after group user next members =
    count-pass_lead group group next _
    ∙ count-delete_many (is_in group) (λ m. text_eq m.group_id group && text_eq m.student_id user)
        members
    ∙ count_same _ _ (λ m. by_cases (text_eq m.group_id group) (text_eq m.student_id user)) members
    ∙ sym (
        length-keep (λ (m : Member). not (text_eq m.student_id user)) (keep (is_in group) members)
        ∙ count-keep (λ (m : Member). not (text_eq m.student_id user)) (is_in group) members)
  where
    by_cases : (a b : Bool) → (a && not (a && b)) ≡ (a && not b)
    by_cases true b = refl
    by_cases false b = refl

-- The other groups keep their members.
count-left_after_other :
    (id group user : Text) (next : Option Text) (members : List Member)
    → text_eq id group ≡ false
    → count (is_in id) (left_after group user next members) ≡ count (is_in id) members
count-left_after_other id group user next members differ =
    count-pass_lead id group next _
    ∙ count-delete_many (is_in id) (λ m. text_eq m.group_id group && text_eq m.student_id user)
        members
    ∙ count_same _ _ apart members
  where
    apart :
        (m : Member)
        → (is_in id m && not (text_eq m.group_id group && text_eq m.student_id user)) ≡ is_in id m
    apart m =
        let is_id = text_eq_iff m.group_id id in
        let is_group = text_eq_iff m.group_id group in
        let equal = text_eq_iff id group in
        elim (Bool-cases (text_eq m.group_id id)) [
          | inr e ↦ ground arith
          | inl e ↦ elim (Bool-cases (text_eq m.group_id group)) [
            | inr f ↦ ground arith
            | inl f ↦ absurd (let p : id ≡ group = sym (is_id.0 e) ∙ is_group.0 f in ground arith)
          ]
        ]

next_status-enough :
    (g : Group) (least n : ℕ) (remaining : List Member)
    → n ≡ length remaining
    → (is_active (next_status g least remaining) && ltb n least) ≡ false
next_status-enough g least n remaining size = elim (Bool-cases (leb least (length remaining))) [
  | inl enough ↦ ground arith
  | inr few ↦ ground arith
]

next_status-fits :
    (g : Group) (least n : ℕ) (remaining : List Member)
    → n ≡ length remaining
    → next_status g least remaining ≡ (if ltb n least then pending else g.status)
next_status-fits g least n remaining size = elim (Bool-cases (leb least (length remaining))) [
  | inl enough ↦ ground arith
  | inr few ↦ ground arith
]

-- To remove a member makes no group active with fewer members than its subject asks for. Unless it is
-- refused and changes nothing, the group it is about is pending afterwards if it is left with fewer
-- members than its subject asks for, and keeps its status otherwise.
pub remove_member-is_short :
    (id : Text) (actor : Actor) (refusal : Error) (g : Group) (user : Text) (s : Store)
    → find_group g.id s ≡ some g
    → is_short id s ≡ false
    → (is_short id (final (remove_member actor refusal g user s)) ≡ false)
      × ((final (remove_member actor refusal g user s) ≡ s)
          ⊎ ((next : Option Text) × (find_group g.id (final (remove_member actor refusal g user s))
                ≡ some (record g {
                  leader_id = next;
                  status =
                      if ltb
                        (count (is_in g.id) (final (remove_member actor refusal g user s)).members)
                        (min_size (find_subject g.subject_id s))
                      then pending
                      else g.status;
                }))))
unfolding remove_member
remove_member-is_short id actor refusal g user s here before =
    let remaining = others user (members_of g.id s) in
    let next = next_leader g user remaining in
    let least = min_size (find_subject g.subject_id s) in
    let size = count-left_after g.id user next s.members in
    let kept =
      is_short-change (λ x. record x { leader_id = next; status = next_status g least remaining })
        (λ x. refl) id g (left_after g.id user next s.members) s here
        (λ h differ.
          let eq = count-left_after_other h.id g.id user next s.members differ in omega (arith, eq))
        (next_status-enough g least _ remaining size) before in
    let written =
      find-update_one (λ (x : Group). text_eq x.id g.id)
        (λ x. record x { leader_id = next; status = next_status g least remaining }) s.groups here
        (find_sound (λ (x : Group). text_eq x.id g.id) s.groups here) in
    let fits =
      next_status-fits g least (count (is_in g.id) (left_after g.id user next s.members)) remaining
        size in
    let settled =
      written ∙ ap (λ status. some (record g { leader_id = next; status = status })) fits in
    elim (Bool-cases (any (λ m. text_eq m.student_id user) (members_of g.id s))) [
      | inr absent ↦ (ground arith, inl (ground arith))
      | inl in_it ↦ elim (Bool-cases (ltb 1 (length (members_of g.id s)))) [
        | inr only ↦ (ground arith, inl (ground arith))
        | inl many ↦ (ground arith, inr (next, rw (in_it, many) settled))
      ]
    ]

join_step :
    (id user : Text) (g : Group) (s : Store)
    → find_group g.id s ≡ some g
    → is_short id s ≡ false
    → is_short id (add_member g user member s) ≡ false
join_step id user g s here before = elim (Option-cases (find_group id s)) [
  | inl missing ↦ rw missing refl
  | inr (h, found) ↦
      let sum = count-append (is_in h.id) s.members (new_member g user member ∷ []) in ground arith
]

settled_enough :
    (g : Group) (user : Text) (s : Store)
    → short s.subjects (add_member g user member s).members (
        some (
          with_status
            (group_status_for (find_subject g.subject_id s) (count (is_seated g.id) s.members + 1))
            g))
      ≡ false
unfolding group_status_for
settled_enough g user s =
    let sum = count-append (is_in g.id) s.members (new_member g user member ∷ []) in
    let own = text_eq_refl g.id in
    let fewer = count_mono (is_seated g.id) (is_in g.id) (λ m h. ground arith) s.members in
    elim (Bool-cases
      (leb (min_size (find_subject g.subject_id s)) (count (is_seated g.id) s.members + 1))) [
        | inl enough ↦ ground arith
        | inr few ↦ ground arith
      ]

-- To join makes no group active with fewer members than its subject asks for, whatever was read before
-- the transaction.
pub join_locked-is_short :
    (id group_id user : Text) (s : Store)
    → is_short id s ≡ false
    → is_short id (final (join_locked group_id user s)) ≡ false
unfolding join_locked
join_locked-is_short id group_id user s before = elim (Option-cases (find_group group_id s)) [
  | inl missing ↦ ground arith
  | inr (g, found) ↦
      let is_key = find_sound (λ (x : Group). text_eq x.id group_id) s.groups found in
      let key = text_eq_iff g.id group_id in
      let here : find_group g.id s ≡ some g =
        subst (λ i. find_group i s ≡ some g) (sym (key.0 is_key)) found in
      let added = join_step id user g s here before in
      let status =
        group_status_for (find_subject g.subject_id s) (count (is_seated g.id) s.members + 1) in
      let settled =
        set_status-is_short id g status (add_member g user member s) here (settled_enough g user s)
          added in
      ground arith
]
