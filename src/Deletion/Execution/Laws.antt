-- ===== src/Deletion/Execution/Laws.antt =====
-- When an execution runs, and what it comes to.
use proj_track_official.Prelude.{
  ◌≡◌, true, false, ◌||◌, Option, some, [], arith, Option-cases, inl, inr,
}
use proj_track_official.Prelude.Text.{Text, is_empty, falsy, CaseTable}
use proj_track_official.Prelude.Outcome.{done, thrown, Error}
use proj_track_official.Deletion.Store.{Execution, Request, Person, Store}
use proj_track_official.Deletion.Request.{normalize_status, status_text, is_approved}
use proj_track_official.Deletion.Execution.{
  Env, find_request, find_person, is_manual_mode, is_stage_validation_env, is_enabled,
  is_backup_verified, has_usable_backup, check_execution,
}

module _ ⦃t : CaseTable⦄ where
  -- What must hold of an execution before anything is deleted.
  pub record IsCleared (env : Env) (x : Execution) (user : Person) (s : Store) : Type 0 where
    pub request : Request
    pub has_request : find_request x.request_id s ≡ some request
    pub has_user : find_person request.requester_id s ≡ some user
    pub enabled : is_enabled env ≡ true
    pub rollout : (is_manual_mode env || is_stage_validation_env env) ≡ true
    pub is_approved : is_approved (normalize_status (some (status_text request.status))) ≡ true
    pub verified : is_backup_verified x.status ≡ true
    pub has_backup : is_empty (falsy x.backup_run_id []) ≡ false
    pub usable : has_usable_backup x.backup_run_id s ≡ true

  pub check_execution_sound :
      (env : Env) (x : Execution) (actor : Option Text) (s s' : Store) (user : Person)
      → check_execution env x actor s ≡ done user s'
      → (s' ≡ s) × IsCleared env x user s
  unfolding check_execution
  check_execution_sound env x actor s s' user h =
      elim (Option-cases (find_request x.request_id s)) [
        | inl e ↦ absurd (ground arith)
        | inr (r, e) ↦ elim (Option-cases (find_person r.requester_id s)) [
          | inl f ↦ absurd (ground arith)
          | inr (u, f) ↦ (
            ground arith,
            record {
              request = r;
              has_request = e;
              has_user = ground arith;
              enabled = ground arith;
              rollout = ground arith;
              is_approved = ground arith;
              verified = ground arith;
              has_backup = ground arith;
              usable = ground arith;
            },
          )
        ]
      ]

  -- A refusal writes to the audit log at most.
  pub check_execution_refused :
      (env : Env) (x : Execution) (actor : Option Text) (s s' : Store) (e : Error)
      → check_execution env x actor s ≡ thrown e s'
      → s' ≡ record s { audit = s'.audit }
  unfolding check_execution
  check_execution_refused env x actor s s' e h = elim (Option-cases (find_request x.request_id s)) [
    | inl e ↦ ground arith
    | inr (r, e) ↦ elim (Option-cases (find_person r.requester_id s)) [
      | inl f ↦ ground arith
      | inr (u, f) ↦ ground arith
    ]
  ]
