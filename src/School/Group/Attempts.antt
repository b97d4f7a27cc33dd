-- ===== src/School/Group/Attempts.antt =====
-- The five attempts of `createGroup`: when they make a group, and that the group is joined by its code.
use proj_track_official.Prelude.{
  ℕ, zero, suc, ◌<◌, ◌≡◌, refl, ap, Bool, true, false, none, some, [], ◌∷◌, ◌++◌, List, any, find,
  arith, Bool-cases, inl, inr, subst, ◌&&◌, ◌||◌, ◌==◌,
}
use proj_track_official.Prelude.Text.{
  Text, text_eq, text_eq_refl, is_empty, trim, CaseTable, to_upper,
}
use proj_track_official.Prelude.Table.{find-append, find-any-none}
use proj_track_official.Prelude.Outcome.{succeeded, final, done}
use proj_track_official.School.Store.{StudentProfile, Subject, Group, leader, Store}
use proj_track_official.School.Group.Rows.{is_member_of, add_member}
use proj_track_official.School.Group.Checks.{check_joinable, join_prechecks}
use proj_track_official.School.Group.Create.{
  Draw, new_group, is_refused, create_row, try_create, create_attempts, build_invite_code,
}
use proj_track_official.School.Group.InviteCode.{to_upper-build_invite_code}

-- The group of a subject that a code, once normalized, is the invite code of.
abbrev has_invite_code : ⦃t : CaseTable⦄ → Text → Text → Group → Bool
has_invite_code code subject_id g =
    text_eq g.invite_code (to_upper (trim code)) && text_eq g.subject_id subject_id

build_invite_code-is_empty : (bytes : List ℕ) → is_empty (build_invite_code bytes) ≡ false
unfolding build_invite_code
build_invite_code-is_empty bytes = refl

module _ (subject : Subject) (profile : StudentProfile) (subject_id name user : Text) where
  -- An attempt that a unique index refuses writes nothing and is tried again.
  try_create-refused :
      (draw : Draw) (s : Store)
      → any (is_member_of subject_id user) s.members ≡ false
      → is_refused (new_group subject profile subject_id name user draw) user s ≡ true
      → try_create subject profile subject_id name user draw s ≡ done none s
  unfolding try_create create_row
  try_create-refused draw s free refused = ground arith

  try_create-taken :
      (draw : Draw) (s : Store)
      → any (is_member_of subject_id user) s.members ≡ true
      → succeeded (try_create subject profile subject_id name user draw s) ≡ false
  unfolding try_create create_row
  try_create-taken draw s taken = ground arith

  with_row : Draw → Store → Store
  with_row draw s =
      let g = new_group subject profile subject_id name user draw in
      add_member g user leader (record s { groups = s.groups ++ g ∷ [] })

  try_create-made :
      (draw : Draw) (s : Store)
      → any (is_member_of subject_id user) s.members ≡ false
      → is_refused (new_group subject profile subject_id name user draw) user s ≡ false
      → try_create subject profile subject_id name user draw s
        ≡ done (some (new_group subject profile subject_id name user draw)) (with_row draw s)
  unfolding try_create create_row with_row
  try_create-made draw s free fresh = ground arith

  -- When the student is in no group of the subject, and one of the draws that are left clashes with no
  -- row, the attempts end with a group.
  pub create_attempts-succeeded :
      (draws : ℕ → Draw) (left i : ℕ) (s : Store)
      → i < left
      → any (is_member_of subject_id user) s.members ≡ false
      → is_refused (new_group subject profile subject_id name user (draws i)) user s ≡ false
      → succeeded (create_attempts subject profile subject_id name user left draws s) ≡ true
  unfolding create_attempts
  create_attempts-succeeded draws zero i s lt free fresh = absurd (omega arith)
  create_attempts-succeeded draws (suc left) i s lt free fresh =
      elim (Bool-cases
        (is_refused (new_group subject profile subject_id name user (draws left)) user s)) [
          | inl refused ↦ elim (Bool-cases (i == left)) [
            | inl same ↦
                let is_left : i ≡ left = ground arith in
                let clash =
                  subst
                    (λ k.
                      is_refused (new_group subject profile subject_id name user (draws k)) user s
                      ≡ false)
                    is_left fresh in
                absurd (ground arith)
            | inr other ↦
                let again = try_create-refused (draws left) s free refused in
                let later = create_attempts-succeeded draws left i s (ground arith) free fresh in
                ground arith
          ]
          | inr made ↦ let returned = try_create-made (draws left) s free made in ground arith
        ]

  row-found :
      ⦃t : CaseTable⦄ (draw : Draw) (s : Store)
      → is_refused (new_group subject profile subject_id name user draw) user s ≡ false
      → find
          (has_invite_code (build_invite_code draw.bytes) subject_id)
          (s.groups ++ new_group subject profile subject_id name user draw ∷ [])
        ≡ some (new_group subject profile subject_id name user draw)
  unfolding new_group
  row-found draw s fresh =
      let key = to_upper-build_invite_code draw.bytes in
      let g = new_group subject profile subject_id name user draw in
      let p = has_invite_code (build_invite_code draw.bytes) subject_id in
      find-append p s.groups g
        (find-any-none p (λ (x : Group). text_eq x.id g.id || text_eq x.invite_code g.invite_code)
          (λ x h.
            let same : (text_eq x.invite_code g.invite_code && text_eq x.subject_id subject_id)
                ≡ true =
              subst (λ c. (text_eq x.invite_code c && text_eq x.subject_id subject_id) ≡ true) key
                h in
            ground arith)
          s.groups (ground arith))
        (rw (key, text_eq_refl g.invite_code, text_eq_refl subject_id) refl)

  solid_code :
      ⦃t : CaseTable⦄ (draw : Draw)
      → is_empty (to_upper (trim (new_group subject profile subject_id name user draw).invite_code))
        ≡ false
  unfolding new_group
  solid_code draw =
      rw (to_upper-build_invite_code draw.bytes) (build_invite_code-is_empty draw.bytes)

  create_attempts-find :
      ⦃t : CaseTable⦄ (draws : ℕ → Draw) (left : ℕ) (g : Group) (s s' : Store)
      → create_attempts subject profile subject_id name user left draws s ≡ done g s'
      → (find (has_invite_code g.invite_code subject_id) s'.groups ≡ some g)
        × (is_empty (to_upper (trim g.invite_code)) ≡ false)
  unfolding create_attempts new_group with_row
  create_attempts-find draws zero g s s' h = absurd (ground arith)
  create_attempts-find draws (suc left) g s s' h =
      let row = new_group subject profile subject_id name user (draws left) in
      elim (Bool-cases (any (is_member_of subject_id user) s.members)) [
        | inl taken ↦ absurd (let refused = try_create-taken (draws left) s taken in ground arith)
        | inr free ↦ elim (Bool-cases (is_refused row user s)) [
          | inl refused ↦
              let again = try_create-refused (draws left) s free refused in
              create_attempts-find draws left g s s' (ground arith)
          | inr made ↦
              let step = try_create-made (draws left) s free made in
              let both : done row (with_row (draws left) s) ≡ done g s' = ground arith in
              let same_row : row ≡ g = cc in
              let same_store : with_row (draws left) s ≡ s' = ap final both in
              subst
                (λ x.
                  (find (has_invite_code g.invite_code subject_id) x.groups ≡ some g)
                  × (is_empty (to_upper (trim g.invite_code)) ≡ false))
                same_store
                (subst
                  (λ x.
                    (find (has_invite_code x.invite_code subject_id)
                        (with_row (draws left) s).groups
                      ≡ some x)
                    × (is_empty (to_upper (trim x.invite_code)) ≡ false))
                  same_row (row-found (draws left) s made, solid_code (draws left)))
        ]
      ]

  -- A group that the attempts make is the one that a student joins by its invite code, in whatever case
  -- and with whatever blanks around it the code is typed: the join finds this group, and what is
  -- left of its checks are those on the group and the student.
  pub create_attempts-join_prechecks :
      ⦃t : CaseTable⦄ (draws : ℕ → Draw) (left : ℕ) (g : Group) (typed other : Text) (s s' : Store)
      → create_attempts subject profile subject_id name user left draws s ≡ done g s'
      → to_upper (trim typed) ≡ to_upper (trim g.invite_code)
      → join_prechecks typed subject_id other s' ≡ check_joinable g other s'
  unfolding join_prechecks
  create_attempts-join_prechecks draws left g typed other s s' h same =
      let (found, solid) = create_attempts-find draws left g s s' h in
      rw same (rw (solid, found) refl)
