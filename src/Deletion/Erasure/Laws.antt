-- ===== src/Deletion/Erasure/Laws.antt =====
-- What the destructive part leaves, and what it leaves alone.
use proj_track_official.Auth.User.{archived}
use proj_track_official.Prelude.{
  ℕ, ◌≡◌, refl, Option, none, some, List, [], ◌∷◌, find, count, arith, ◌==◌, if◌then◌else◌,
  Option-cases, inl, inr, ◌++◌,
}
use proj_track_official.Prelude.Text.{Text, text_eq, text_eq_refl, codes}
use proj_track_official.Prelude.Table.{
  update_one, update_many, delete_many, delete_many-none, count-find-none, count-update_many_zero,
  find-update_one,
}
use proj_track_official.Prelude.Outcome.{done, thrown, Error}
use proj_track_official.Deletion.Store.{
  Category, email_job, notification, pending_upload, enrollment, group_member, subject_teacher,
  student_profile, teacher_profile, auth_session, account_action_token, user_record, Counts, Person,
  Owned, Subject, Store,
}
use proj_track_official.Deletion.Erasure.{
  Faults, Work, belongs_to, is_taught_by, untaught, anonymized, erase, execution_plan,
}

abbrev pub without_enrollments : Option Owned → List Owned → List Owned
without_enrollments none rows = rows
without_enrollments (some profile) rows = delete_many (belongs_to profile.id) rows

abbrev pub without_profile : Text → Option Owned → List Owned → List Owned
without_profile user none rows = rows
without_profile user (some profile) rows = delete_many (belongs_to user) rows

abbrev pub without_teacher : Option Owned → List Subject → List Subject
without_teacher none rows = rows
without_teacher (some profile) rows = update_many (is_taught_by profile.id) untaught rows

-- The tables after every step.
abbrev pub erased : Person → Store → Store
erased user s =
    let student = find (belongs_to user.id) s.student_profiles in
    let teacher = find (belongs_to user.id) s.teacher_profiles in
    record s {
      people = update_one (λ p. text_eq p.id user.id) anonymized s.people;
      email_jobs = delete_many (belongs_to user.email) s.email_jobs;
      notifications = delete_many (belongs_to user.id) s.notifications;
      pending_uploads = delete_many (belongs_to user.id) s.pending_uploads;
      student_profiles = without_profile user.id student s.student_profiles;
      teacher_profiles = without_profile user.id teacher s.teacher_profiles;
      enrollments = without_enrollments student s.enrollments;
      group_members = delete_many (belongs_to user.id) s.group_members;
      subjects = without_teacher teacher s.subjects;
      auth_sessions = delete_many (belongs_to user.id) s.auth_sessions;
      account_action_tokens = delete_many (belongs_to user.id) s.account_action_tokens;
    }

pub erase_done :
    (faults : Faults) (user : Person) (w w' : Work)
    → erase faults user w ≡ done tt w'
    → w'.rows ≡ erased user w.rows
unfolding erase
erase_done faults user w w' h =
    elim (Option-cases (find (belongs_to user.id) w.rows.student_profiles)) [
      | inl e ↦ elim (Option-cases (find (belongs_to user.id) w.rows.teacher_profiles)) [
        | inl f ↦ ground arith
        | inr (q, f) ↦ ground arith
      ]
      | inr (p, e) ↦ elim (Option-cases (find (belongs_to user.id) w.rows.teacher_profiles)) [
        | inl f ↦ ground arith
        | inr (q, f) ↦ ground arith
      ]
    ]

-- The enrollments of a student profile, if there is one, and the subjects of a teacher profile.
abbrev pub enrolled : Option Owned → List Owned → ℕ
enrolled none rows = 0
enrolled (some profile) rows = count (belongs_to profile.id) rows

abbrev pub taught : Option Owned → List Subject → ℕ
taught none rows = 0
taught (some profile) rows = count (is_taught_by profile.id) rows

enrolled-without :
    (profile : Option Owned) (rows : List Owned)
    → enrolled profile (without_enrollments profile rows) ≡ 0
enrolled-without none rows = refl
enrolled-without (some p) rows = delete_many-none (belongs_to p.id) rows

taught-without :
    (profile : Option Owned) (rows : List Subject)
    → taught profile (without_teacher profile rows) ≡ 0
taught-without none rows = refl
taught-without (some p) rows =
    count-update_many_zero (is_taught_by p.id) (is_taught_by p.id) untaught (λ x h. refl) (λ x h. h)
      rows

-- What a run of the deletions must leave for an account: no row of its own, no subject that names its
-- teacher profile, and the account itself without its identity. `before` is the data that it met.
pub record IsForgotten (user : Person) (before after : Store) : Type 0 where
  pub no_mail : count (belongs_to user.email) after.email_jobs ≡ 0
  pub no_notifications : count (belongs_to user.id) after.notifications ≡ 0
  pub no_uploads : count (belongs_to user.id) after.pending_uploads ≡ 0
  pub no_student_profile : count (belongs_to user.id) after.student_profiles ≡ 0
  pub no_teacher_profile : count (belongs_to user.id) after.teacher_profiles ≡ 0
  pub no_enrollments :
      enrolled (find (belongs_to user.id) before.student_profiles) after.enrollments ≡ 0
  pub no_memberships : count (belongs_to user.id) after.group_members ≡ 0
  pub no_subjects : taught (find (belongs_to user.id) before.teacher_profiles) after.subjects ≡ 0
  pub no_sessions : count (belongs_to user.id) after.auth_sessions ≡ 0
  pub no_tokens : count (belongs_to user.id) after.account_action_tokens ≡ 0
  pub no_identity :
      find (λ p. text_eq p.id user.id) after.people
      ≡ some (record user {
        email = codes "deleted-" ++ user.id ++ codes "@anonymized.invalid";
        password_hash = none;
        first_name = codes "[Deleted]";
        last_name = codes "[Deleted]";
        phone = none;
        office = none;
        avatar = none;
        status = archived;
      })

without_profile-none :
    (user : Text) (rows : List Owned)
    → count (belongs_to user) (without_profile user (find (belongs_to user) rows) rows) ≡ 0
without_profile-none user rows = elim (Option-cases (find (belongs_to user) rows)) [
  | inl e ↦ rw e (count-find-none (belongs_to user) rows e)
  | inr (p, e) ↦ rw e (delete_many-none (belongs_to user) rows)
]

pub erased-IsForgotten :
    (user : Person) (s : Store)
    → find (λ p. text_eq p.id user.id) s.people ≡ some user
    → IsForgotten user s (erased user s)
erased-IsForgotten user s found = record {
  no_mail = delete_many-none (belongs_to user.email) s.email_jobs;
  no_notifications = delete_many-none (belongs_to user.id) s.notifications;
  no_uploads = delete_many-none (belongs_to user.id) s.pending_uploads;
  no_student_profile = without_profile-none user.id s.student_profiles;
  no_teacher_profile = without_profile-none user.id s.teacher_profiles;
  no_enrollments = enrolled-without (find (belongs_to user.id) s.student_profiles) s.enrollments;
  no_memberships = delete_many-none (belongs_to user.id) s.group_members;
  no_subjects = taught-without (find (belongs_to user.id) s.teacher_profiles) s.subjects;
  no_sessions = delete_many-none (belongs_to user.id) s.auth_sessions;
  no_tokens = delete_many-none (belongs_to user.id) s.account_action_tokens;
  no_identity =
      find-update_one (λ p. text_eq p.id user.id) anonymized s.people found (text_eq_refl user.id);
}

-- When the database refuses a statement, the account keeps its identity: it is anonymized last.
pub erase_thrown :
    (faults : Faults) (user : Person) (w w' : Work) (e : Error)
    → erase faults user w ≡ thrown e w'
    → w'.rows.people ≡ w.rows.people
unfolding erase
erase_thrown faults user w w' e h =
    elim (Option-cases (find (belongs_to user.id) w.rows.student_profiles)) [
      | inl e ↦ elim (Option-cases (find (belongs_to user.id) w.rows.teacher_profiles)) [
        | inl f ↦ ground arith
        | inr (q, f) ↦ ground arith
      ]
      | inr (p, e) ↦ elim (Option-cases (find (belongs_to user.id) w.rows.teacher_profiles)) [
        | inl f ↦ ground arith
        | inr (q, f) ↦ ground arith
      ]
    ]

abbrev pub rank : Category → ℕ
rank email_job = 0
rank notification = 1
rank pending_upload = 2
rank enrollment = 3
rank group_member = 4
rank subject_teacher = 5
rank student_profile = 6
rank teacher_profile = 7
rank auth_session = 8
rank account_action_token = 9
rank user_record = 10

-- The count that a report gives a category; one that it does not name has none.
abbrev pub counted : Category → Counts → ℕ
counted c [] = 0
counted c ((d, n) ∷ rest) = let later = counted c rest in if rank c == rank d then n else later

-- The plan, and so the dry run, foretells for every category the count that the deletions report.
pub erase-execution_plan :
    (faults : Faults) (user : Person) (s : Store) (w : Work) (c : Category)
    → erase faults user (record { rows = s; results = [] }) ≡ done tt w
    → counted c w.results ≡ counted c (execution_plan user s)
unfolding erase execution_plan
erase-execution_plan faults user s w c h =
    elim (Option-cases (find (belongs_to user.id) s.student_profiles)) [
      | inl e ↦ elim (Option-cases (find (belongs_to user.id) s.teacher_profiles)) [
        | inl f ↦ ground arith
        | inr (q, f) ↦ ground arith
      ]
      | inr (p, e) ↦ elim (Option-cases (find (belongs_to user.id) s.teacher_profiles)) [
        | inl f ↦ ground arith
        | inr (q, f) ↦ ground arith
      ]
    ]
