-- ===== src/School/Deadline.antt =====
-- When a submission is accepted, and as what.
use proj_track_official.Prelude.{
  ℕ, zero, suc, ◌<◌, leb, ◌⊎◌, ◌≡◌, refl, ◌∙◌, Bool, true, false, not, ◌&&◌, ◌||◌, Option, none,
  some, find, arith, Option-cases, Bool-cases, inl, inr,
}
use proj_track_official.Prelude.Text.{Text, codes, CaseTable}
use proj_track_official.Prelude.Outcome.{done, ok, get, bad_request, not_found, Outcome-cases}
use proj_track_official.Prelude.Hoare.{
  Hoare, Hoare-fact, Hoare-bind, Hoare-lift, Hoare-require, Hoare-return,
}
use proj_track_official.School.Store.{Task, Submission, Store, find_task}
use proj_track_official.School.Access.{assert_found, require_student_enrolled}
use proj_track_official.School.Handin.{
  Handin, Verdict, is_before, is_after, is_late, first_status, check_files, check_group,
  group_verdict, validate_student_submission, is_other_group, is_own_group,
}
use proj_track_official.School.Uploads.{consume_pending_uploads}
use proj_track_official.School.Submit.{
  attach_all, all_named, upload_ids, is_existing, is_fixed, written, inserted, new_submission,
  update_submission, insert_submission, create_or_update_submission, submit_attached, submit_as,
  submit,
}
use proj_track_official.School.Permissions.{Result-cases}

-- What the checks of the validation let through.
abbrev passes : ℕ → Task → Bool
passes now task =
    not (is_before now task.open_at)
    && not (is_after now task.close_at)
    && task.is_open
    && (not (is_late now task) || task.allow_late)

-- The time at which submissions for the activity are due: its due time, or else its deadline. A time of
-- zero is no time.
abbrev pub IsDue : Task → ℕ → Type 0
IsDue task t =
    ((task.due_at ≡ some t) ⊎ ((task.due_at ≡ none) × (task.deadline ≡ some t))) × (0 < t)

abbrev pub IsOverdue : ℕ → Task → Type 0
IsOverdue now task = (t : ℕ) × IsDue task t × (t < now)

-- The activity is open, and this time is not before its opening and not after its closing.
abbrev pub is_accepting : ℕ → Task → Bool
is_accepting now task = has_opened task.open_at && not (has_closed task.close_at) && task.is_open
  where
    has_opened : Option ℕ → Bool
    has_opened none = true
    has_opened (some t) = leb t now

    has_closed : Option ℕ → Bool
    has_closed none = false
    has_closed (some zero) = false
    has_closed (some (suc t)) = leb (suc (suc t)) now

passes-is_accepting :
    (now : ℕ) (task : Task) → passes now task ≡ true → is_accepting now task ≡ true
passes-is_accepting now task h = elim (Option-cases task.open_at) [
  | inl always ↦ elim (Option-cases task.close_at) [
    | inl never ↦ ground arith
    | inr (zero, closes) ↦ ground arith
    | inr (suc t, closes) ↦ ground arith
  ]
  | inr (o, opens) ↦ elim (Option-cases task.close_at) [
    | inl never ↦ ground arith
    | inr (zero, closes) ↦ ground arith
    | inr (suc t, closes) ↦ ground arith
  ]
]

is_late-IsOverdue :
    (now : ℕ) (task : Task)
    → ((is_late now task ≡ true) × IsOverdue now task)
      ⊎ ((is_late now task ≡ false) × ¬ IsOverdue now task)
is_late-IsOverdue now task = elim (Option-cases task.due_at) [
  | inr (t, due) ↦ elim (Bool-cases (is_after now (some t))) [
    | inl after ↦ inl (rw due after, (t, (inl due, ground arith), ground arith))
    | inr before ↦ inr (rw due before, λ (t', (which, solid), passed). ground arith)
  ]
  | inl no_due ↦ elim (Option-cases task.deadline) [
    | inr (t, due) ↦ elim (Bool-cases (is_after now (some t))) [
      | inl after ↦
          inl (rw (no_due, due) after, (t, (inr (no_due, due), ground arith), ground arith))
      | inr before ↦ inr (rw (no_due, due) before, λ (t', (which, solid), passed). ground arith)
    ]
    | inl no_deadline ↦
        inr (rw (no_due, no_deadline) refl, λ (t', (which, solid), passed). ground arith)
  ]
]

group_verdict-status :
    (now : ℕ) (body : Handin) (task : Task) (user : Text) (s : Store) (v : Verdict)
    → group_verdict now body task user s ≡ ok v
    → v.status ≡ first_status now task
unfolding group_verdict check_group
group_verdict-status now body task user s v h = elim (Bool-cases task.is_group_task) [
  | inr single ↦ ground arith
  | inl grouped ↦ elim (Option-cases (find (is_own_group task.subject_id user s) s.groups)) [
    | inl missing ↦ absurd (ground arith)
    | inr (g, mine) ↦ elim (Bool-cases (is_other_group body.group_id g.id)) [
      | inl other ↦ absurd (ground arith)
      | inr same ↦ ground arith
    ]
  ]
]

module _ ⦃t : CaseTable⦄ where
  validate-status :
      (now : ℕ) (body : Handin) (task : Task) (user : Text) (s : Store) (v : Verdict)
      → validate_student_submission now body task user s ≡ ok v
      → (v.status ≡ first_status now task) × (passes now task ≡ true)
  unfolding validate_student_submission
  validate-status now body task user s v h =
      elim (Result-cases (require_student_enrolled (some user) task.subject_id s)) [
        | inl refused ↦ absurd (ground arith)
        | inr (e, enrolled) ↦ elim (Result-cases (check_files task body.files)) [
          | inl refused ↦ absurd (ground arith)
          | inr (checked, fine) ↦
              let last = group_verdict-status now body task user s v in ground arith
        ]
      ]

  update_submission-status :
      (file_id : ℕ → Text) (now : ℕ) (body : Handin) (user status : Text) (task : Task)
      (old row : Submission) (s s' : Store)
      → update_submission file_id now body user status task old s ≡ done row s'
      → row.status ≡ status
  unfolding update_submission
  update_submission-status file_id now body user status task old row s s' h =
      elim (Outcome-cases (
        consume_pending_uploads now (upload_ids body.files) user old.id
          (written file_id now body user status task old s))) [
            | inl (a, after, e) ↦ ground arith
            | inr (e', after, e) ↦ absurd (ground arith)
          ]

  insert_submission-status :
      (file_id : ℕ → Text) (now : ℕ) (body : Handin) (user : Text) (new row : Submission)
      (s s' : Store)
      → insert_submission file_id now body user new s ≡ done row s'
      → row.status ≡ new.status
  unfolding insert_submission
  insert_submission-status file_id now body user new row s s' h =
      elim (Outcome-cases (
        consume_pending_uploads now (upload_ids body.files) user new.id
          (inserted file_id body new s))) [
            | inl (a, after, e) ↦ ground arith
            | inr (e', after, e) ↦ absurd (ground arith)
          ]

  create_or_update-status :
      (fresh : Text) (file_id : ℕ → Text) (now : ℕ) (body : Handin) (group : Option Text)
      (user status : Text) (row : Submission) (s s' : Store)
      → create_or_update_submission fresh file_id now body group user status s ≡ done row s'
      → row.status ≡ status
  unfolding create_or_update_submission
  create_or_update-status fresh file_id now body group user status row s s' h =
      elim (Option-cases (find_task body.activity_id s)) [
        | inl missing ↦ absurd (ground arith)
        | inr (task, known) ↦
            elim (Option-cases (find (is_existing body.activity_id user group) s.submissions)) [
              | inl none_yet ↦
                  let new =
                    insert_submission-status file_id now body user
                      (new_submission fresh now body group user status task) row s s' in
                  ground arith
              | inr (old, there) ↦
                  let again =
                    update_submission-status file_id now body user status task old row s s' in
                  ground arith
            ]
      ]

  submit_attached-status :
      (fresh : Text) (file_id : ℕ → Text) (now : ℕ) (body : Handin) (user : Text) (task : Task)
      (seen : Store)
      → Hoare
          (λ s. Unit)
          (submit_attached fresh file_id now body user task seen)
          (λ row s. (row.status ≡ first_status now task) × (passes now task ≡ true))
  unfolding submit_attached
  submit_attached-status fresh file_id now body user task seen =
      Hoare-bind (Hoare-lift (validate_student_submission now body task user seen)) λ verdict.
        Hoare-fact λ valid.
          let told = validate-status now body task user seen verdict valid in
          Hoare-bind
            (Hoare-require
              (not (
                is_fixed
                  (find (is_existing body.activity_id user verdict.group_id) seen.submissions)))
              (bad_request
                "This submission can no longer be edited or resubmitted from the student workflow."))
            λ editable.
              Hoare-bind
                (record {
                  holds = λ s s' row p e. (
                    create_or_update-status fresh file_id now body verdict.group_id user
                        verdict.status row s s' e,
                    tt,
                  );
                })
                λ row. Hoare-fact λ status.
                  Hoare-bind (record { holds = λ s s' a p e. tt })
                    λ recorded. Hoare-return row (λ s p. (status ∙ told.0, told.1))

  submit_as-status :
      (stored : Text → Bool) (fresh : Text) (file_id : ℕ → Text) (now : ℕ) (body : Handin)
      (user : Text) (task : Task) (seen : Store)
      → find_task body.activity_id seen ≡ some task
      → Hoare
          (λ s. Unit)
          (submit_as stored fresh file_id now body user seen)
          (λ row s. (row.status ≡ first_status now task) × (passes now task ≡ true))
  unfolding submit_as
  submit_as-status stored fresh file_id now body user task seen known =
      Hoare-bind
        (Hoare-lift
          (assert_found (find_task body.activity_id seen) (not_found "Activity not found.")))
        λ x. Hoare-fact λ there.
          let is_task : x ≡ task = ground arith in
          Hoare-bind
            (Hoare-require (all_named body.files)
              (bad_request "Each submitted file must reference a pending upload id."))
            λ named.
              Hoare-bind (record { holds = λ s s' a p e. tt })
                λ uploads. Hoare-bind (Hoare-lift (attach_all uploads body.files)) λ files.
                  Hoare-bind {m = get}
                    {f = submit_attached fresh file_id now (record body { files = files }) user x}
                    (record { holds = λ s s' a p e. tt })
                    λ s. rw is_task (
                      submit_attached-status fresh file_id now (record body { files = files }) user
                        task s)

  submit-first_status :
      (stored : Text → Bool) (fresh : Text) (file_id : ℕ → Text) (now : ℕ) (body : Handin)
      (user : Text) (task : Task) (row : Submission) (s s' : Store)
      → find_task body.activity_id s ≡ some task
      → submit stored fresh file_id now body (some user) s ≡ done row s'
      → (row.status ≡ first_status now task) × (passes now task ≡ true)
  unfolding submit submit_as
  submit-first_status stored fresh file_id now body user task row s s' known h =
      (submit_as-status stored fresh file_id now body user task s known).holds s s' row tt
        (ground arith)

  -- A submission that is returned was handed in while its activity was open, not before its opening and
  -- not after its closing. Its status is LATE if the due time, or else the deadline, had passed, and then
  -- the activity allows late submissions; otherwise it is SUBMITTED.
  pub submit-status :
      (stored : Text → Bool) (fresh : Text) (file_id : ℕ → Text) (now : ℕ) (body : Handin)
      (user : Text) (task : Task) (row : Submission) (s s' : Store)
      → find_task body.activity_id s ≡ some task
      → submit stored fresh file_id now body (some user) s ≡ done row s'
      → (is_accepting now task ≡ true)
        × (((row.status ≡ codes "LATE") × IsOverdue now task × (task.allow_late ≡ true))
            ⊎ ((row.status ≡ codes "SUBMITTED") × ¬ IsOverdue now task))
  submit-status stored fresh file_id now body user task row s s' known h =
      let (status, passed) =
        submit-first_status stored fresh file_id now body user task row s s' known h in
      (
        passes-is_accepting now task passed,
        elim (is_late-IsOverdue now task) [
          | inl (late, over) ↦ inl (status ∙ rw late refl, over, ground arith)
          | inr (on_time, not_over) ↦ inr (status ∙ rw on_time refl, not_over)
        ],
      )
