-- ===== src/School/Group/Seats.antt =====
-- How many seats of a group are taken, and how joining keeps to its size.
use proj_track_official.Prelude.{
  ◌+◌, ◌≡◌, refl, sym, ◌∙◌, Bool, true, false, not, Option, none, some, List, [], ◌∷◌, find, count,
  ltb, arith, Option-cases, Bool-cases, inl, inr, subst, find_sound,
}
use proj_track_official.Prelude.Text.{Text, text_eq, text_eq_iff, is_empty, trim, falsy, CaseTable}
use proj_track_official.Prelude.Table.{update_one, count-append}
use proj_track_official.Prelude.Outcome.{final, bad_request, not_found}
use proj_track_official.Prelude.Keeps.{Keeps, Keeps-bind, Keeps-get, Keeps-lift, Keeps-require}
use proj_track_official.School.Store.{
  Subject, GroupStatus, Group, Member, member, Store, find_group, find_subject,
}
use proj_track_official.School.Group.Rows.{
  require_user_id, is_seated, max_size, add_member, new_member, group_status_for,
}
use proj_track_official.School.Access.{assert_found}
use proj_track_official.School.Membership.{require_can_join_group}
use proj_track_official.School.Group.Checks.{join_prechecks}
use proj_track_official.School.Group.Join.{join_locked, settle_status, join_group_by_code}

-- Does a group that was looked up have more members, not removed, than its subject allows?
abbrev pub over : List Subject → List Member → Option Group → Bool
over subjects members none = false
over subjects members (some g) =
    ltb (max_size (find (λ x. text_eq x.id g.subject_id) subjects)) (count (is_seated g.id) members)

abbrev pub is_overfull : Text → Store → Bool
is_overfull group s = over s.subjects s.members (find_group group s)

over-update_one :
    (subjects : List Subject) (members : List Member) (id other : Text) (status : GroupStatus)
    (groups : List Group)
    → over subjects members (
        find
          (λ g. text_eq g.id id)
          (update_one (λ g. text_eq g.id other) (λ g. record g { status = status }) groups))
      ≡ over subjects members (find (λ g. text_eq g.id id) groups)
over-update_one subjects members id other status [] = refl
over-update_one subjects members id other status (g ∷ groups) =
    let rest = over-update_one subjects members id other status groups in
    elim (Bool-cases (text_eq g.id other)) [
      | inl e ↦ elim (Bool-cases (text_eq g.id id)) [
        | inl f ↦ rw (e, f) refl
        | inr f ↦ rw (e, f) refl
      ]
      | inr e ↦ elim (Bool-cases (text_eq g.id id)) [
        | inl f ↦ rw (e, f) refl
        | inr f ↦ rw (e, f) rest
      ]
    ]

is_overfull-settle_status :
    (id : Text) (g : Group) (status : GroupStatus) (s : Store)
    → is_overfull id (settle_status g status s) ≡ is_overfull id s
is_overfull-settle_status id g status s =
    let step = over-update_one s.subjects s.members id g.id status s.groups in ground arith

over-add_member :
    (g : Group) (user : Text) (s : Store)
    → ltb (count (is_seated g.id) s.members) (max_size (find_subject g.subject_id s)) ≡ true
    → over s.subjects (add_member g user member s).members (some g) ≡ false
over-add_member g user s room =
    ground (arith, count-append (is_seated g.id) s.members (new_member g user member ∷ []))

is_overfull-add_member :
    (id user : Text) (g : Group) (s : Store)
    → find_group g.id s ≡ some g
    → ltb (count (is_seated g.id) s.members) (max_size (find_subject g.subject_id s)) ≡ true
    → is_overfull id s ≡ false
    → is_overfull id (add_member g user member s) ≡ false
is_overfull-add_member id user g s here room before = elim (Option-cases (find_group id s)) [
  | inl missing ↦ rw missing refl
  | inr (h, found) ↦
      let sum = count-append (is_seated h.id) s.members (new_member g user member ∷ []) in
      let key = text_eq_iff g.id h.id in
      let own = text_eq_iff h.id id in
      let is_id = find_sound (λ (x : Group). text_eq x.id id) s.groups found in
      elim (Bool-cases (text_eq g.id h.id)) [
        | inr other ↦ ground arith
        | inl same ↦
            let there : find_group id s ≡ some g =
              subst (λ i. find_group i s ≡ some g) (key.0 same ∙ own.0 is_id) here in
            rw there (over-add_member g user s room)
      ]
]

-- Whatever was read before the transaction, and whether it joins or is refused, no group comes to hold
-- more members that are not removed than its subject allows.
pub join_locked-is_overfull :
    (id group_id user : Text) (s : Store)
    → is_overfull id s ≡ false
    → is_overfull id (final (join_locked group_id user s)) ≡ false
unfolding join_locked
join_locked-is_overfull id group_id user s before = elim (Option-cases (find_group group_id s)) [
  | inl missing ↦ ground arith
  | inr (g, found) ↦
      let is_key = find_sound (λ (x : Group). text_eq x.id group_id) s.groups found in
      let key = text_eq_iff g.id group_id in
      let here : find_group g.id s ≡ some g =
        subst (λ i. find_group i s ≡ some g) (sym (key.0 is_key)) found in
      let added = is_overfull-add_member id user g s here in
      let settled =
        is_overfull-settle_status id g
          (group_status_for (find_subject g.subject_id s) (count (is_seated g.id) s.members + 1))
          (add_member g user member s) in
      ground arith
]

module _ ⦃t : CaseTable⦄ where
  -- To join a group by its code, whether the request succeeds or is refused and however stale the reads
  -- before its transaction are, leaves no group that was within its subject's maximum with more members
  -- that are not removed than that maximum.
  pub join_group_by_code-is_overfull :
      (id : Text) (seen : Store) (code subject_id user_id : Option Text) (s : Store)
      → is_overfull id s ≡ false
      → is_overfull id (final (join_group_by_code seen code subject_id user_id s)) ≡ false
  unfolding join_group_by_code
  join_group_by_code-is_overfull id seen code subject_id user_id s before = keeps.kept s before
    where
      keeps :
          Keeps (λ s. is_overfull id s ≡ false) (join_group_by_code seen code subject_id user_id)
      keeps = Keeps-bind (Keeps-lift (require_user_id user_id)) λ user.
          Keeps-bind
            (Keeps-require (not (is_empty (trim (falsy subject_id []))))
              (bad_request "Subject is required."))
            λ named.
              Keeps-bind
                (Keeps-lift
                  (require_can_join_group (some user) (trim (falsy subject_id [])) code seen))
                λ allowed.
                  Keeps-bind
                    (Keeps-lift
                      (join_prechecks (falsy code []) (trim (falsy subject_id [])) user seen))
                    λ g.
                      Keeps-bind (record { kept = join_locked-is_overfull id g.id user })
                        λ joined. Keeps-bind Keeps-get λ s.
                          Keeps-lift
                            (assert_found (find_group g.id s) (not_found "Invite code not found."))
