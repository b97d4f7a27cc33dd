-- ===== src/Deletion/Execution/Outcomes.antt =====
-- What an execution that returns, and one that throws, has done.
use proj_track_official.Prelude.{
  ℕ, ◌≡◌, true, false, Option, some, List, [], find, arith, inl, inr, find_sound, ◌||◌, sym, subst,
}
use proj_track_official.Prelude.Text.{Text, text_eq, text_eq_iff, CaseTable}
use proj_track_official.Prelude.Table.{update_one}
use proj_track_official.Prelude.Outcome.{done, final, succeeded, Outcome-cases}
use proj_track_official.Deletion.Store.{Execution, Person, Store, Entry}
use proj_track_official.Deletion.Erasure.{erase}
use proj_track_official.Deletion.Erasure.Laws.{IsForgotten, erased, erased-IsForgotten, erase_done}
use proj_track_official.Deletion.Execution.{
  Env, Refusals, find_execution, check_execution, carry_out, attempt_execution, mark_started,
  is_completed_status, is_started,
}
use proj_track_official.Deletion.Execution.Laws.{
  IsCleared, check_execution_sound, check_execution_refused,
}

-- The rows that are neither evidence of the execution nor audit entries are all that it is about.
abbrev pub beside : List Execution → List Entry → Store → Store
beside executions audit s = record s { executions = executions; audit = audit }

IsForgotten-beside :
    (user : Person) (before after : Store) (xs : List Execution) (audit : List Entry)
    → IsForgotten user before after
    → IsForgotten user before (beside xs audit after)
IsForgotten-beside user before after xs audit h = record {
  no_mail = h.no_mail;
  no_notifications = h.no_notifications;
  no_uploads = h.no_uploads;
  no_student_profile = h.no_student_profile;
  no_teacher_profile = h.no_teacher_profile;
  no_enrollments = h.no_enrollments;
  no_memberships = h.no_memberships;
  no_subjects = h.no_subjects;
  no_sessions = h.no_sessions;
  no_tokens = h.no_tokens;
  no_identity = h.no_identity;
}

module _ ⦃t : CaseTable⦄ where
  carry_out_done :
      (refusals : Refusals) (x : Execution) (user : Person) (now later : ℕ) (actor : Option Text)
      (s s' : Store) (r : Option Execution)
      → carry_out refusals x user now later actor s ≡ done r s'
      → s' ≡ beside s'.executions s'.audit (erased user s)
  unfolding carry_out
  carry_out_done refusals x user now later actor s s' r h =
      let started = record s {
        executions = update_one (λ y. text_eq y.id x.id) (mark_started actor now) s.executions;
      } in
      elim (Outcome-cases
        (erase refusals.statements user (record { rows = started; results = [] }))) [
          | inr (e, w, thrown_) ↦ absurd (ground arith)
          | inl (u, w, done_) ↦
              let rows =
                erase_done refusals.statements user (record { rows = started; results = [] }) w
                  (ground arith) in
              ground arith
        ]

  -- The row of the account that an execution is cleared for.
  own_row :
      (env : Env) (x : Execution) (user : Person) (s : Store)
      → IsCleared env x user s
      → find (λ p. text_eq p.id user.id) s.people ≡ some user
  own_row env x user s cleared =
      let key : user.id ≡ cleared.request.requester_id = ground (
        arith,
        text_eq_iff user.id cleared.request.requester_id,
        find_sound (λ p. text_eq p.id cleared.request.requester_id) s.people cleared.has_user,
      ) in
      subst (λ i. find (λ p. text_eq p.id i) s.people ≡ some user) (sym key) cleared.has_user

  IsForgotten-erased :
      (user : Person) (s s' : Store)
      → find (λ p. text_eq p.id user.id) s.people ≡ some user
      → s' ≡ beside s'.executions s'.audit (erased user s)
      → IsForgotten user s s'
  IsForgotten-erased user s s' here shape =
      subst (λ a. IsForgotten user s a) (sym shape)
        (IsForgotten-beside user s (erased user s) _ _ (erased-IsForgotten user s here))

  -- An execution that returns was cleared, which includes the switch, the manual rollout or a staging
  -- environment, the approval of the request and a completed backup that is verified and not deleted;
  -- and afterwards the account of the request is forgotten.
  pub attempt_execution-IsForgotten :
      (env : Env) (refusals : Refusals) (id : Text) (now later : ℕ) (actor : Option Text)
      (s s' : Store) (r : Option Execution) (x : Execution)
      → find_execution id s ≡ some x
      → attempt_execution env refusals id now later actor s ≡ done r s'
      → (user : Person) × IsCleared env x user s × IsForgotten user s s'
  unfolding attempt_execution
  attempt_execution-IsForgotten env refusals id now later actor s s' r x found h =
      elim (Outcome-cases (check_execution env x actor s)) [
        | inr (e, s₁, refused) ↦ absurd (ground arith)
        | inl (user, s₁, checked) ↦
            let (same, cleared) = check_execution_sound env x actor s s₁ user checked in
            let run : carry_out refusals x user now later actor s ≡ done r s' = ground arith in
            let shape = carry_out_done refusals x user now later actor s s' r run in
            (user, cleared, IsForgotten-erased user s s' (own_row env x user s cleared) shape)
      ]

  -- An attempt on an execution that has completed or is under way throws, and touches nothing beside
  -- the audit log.
  pub attempt_execution-refuses_repeat :
      (env : Env) (refusals : Refusals) (id : Text) (now later : ℕ) (actor : Option Text)
      (s : Store) (x : Execution)
      → find_execution id s ≡ some x
      → (is_completed_status x.status || is_started x.status) ≡ true
      → (succeeded (attempt_execution env refusals id now later actor s) ≡ false)
        × (final (attempt_execution env refusals id now later actor s) ≡ record s {
          audit = (final (attempt_execution env refusals id now later actor s)).audit;
        })
  unfolding attempt_execution
  attempt_execution-refuses_repeat env refusals id now later actor s x found over =
      elim (Outcome-cases (check_execution env x actor s)) [
        | inl (user, s₁, checked) ↦
            let (same, cleared) = check_execution_sound env x actor s s₁ user checked in
            let verified = cleared.verified in absurd (ground arith)
        | inr (e', s₁, refused) ↦
            let same = check_execution_refused env x actor s s₁ e' refused in ground arith
      ]
