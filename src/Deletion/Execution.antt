-- ===== src/Deletion/Execution.antt =====
-- The executions: the operations of
-- backend/src/data-deletion/data-deletion-execution.service.ts that write.
pub mod Laws
pub mod Outcomes
pub mod DryRun
use proj_track_official.Prelude.{
  ℕ, Bool, true, false, ◌&&◌, ◌||◌, not, Option, none, some, List, [], ◌∷◌, ◌++◌, if◌then◌else◌,
  find, is_some,
}
use proj_track_official.Prelude.Text.{
  Text, codes, text_eq, is_empty, trim, CaseTable, to_lower, falsy, option_eq,
}
use proj_track_official.Prelude.Table.{update_one}
use proj_track_official.Prelude.Outcome.{
  Error, bad_request, forbidden, not_found, internal, Outcome, done, thrown, Handler, get, modify,
  require, return, throw, ◌>>=◌, ◌>>◌,
}
use proj_track_official.Deletion.Store.{
  RequestStatus, Request, ExecutionStatus, dry_run_pending, dry_run_started, dry_run_completed,
  backup_verified, execution_started, execution_completed, execution_failed, Execution, Backup,
  Person, Store, Counts, record_audit, dry_run_planned, dry_run_done, backup_confirmed,
  manual_confirmed, blocked, completed, not_completed,
}
use proj_track_official.Deletion.Request.{normalize_status, status_text, is_approved}
use proj_track_official.Deletion.Erasure.{Faults, Work, erase, execution_plan}

-- The variables of the environment that the service reads.
pub record Env : Type 0 where
  pub execution_enabled : Option Text
  pub execution_mode : Option Text
  pub stage_only : Option Text
  pub app_env : Option Text
  pub node_env : Option Text

abbrev pub is_text : Option Text → Text → Bool
is_text none t = false
is_text (some s) t = text_eq s t

abbrev pub is_dry_run_pending : ExecutionStatus → Bool
is_dry_run_pending dry_run_pending = true
is_dry_run_pending _ = false

abbrev pub is_backup_verified : ExecutionStatus → Bool
is_backup_verified backup_verified = true
is_backup_verified _ = false

abbrev pub is_started : ExecutionStatus → Bool
is_started execution_started = true
is_started _ = false

abbrev pub is_completed_status : ExecutionStatus → Bool
is_completed_status execution_completed = true
is_completed_status _ = false

-- `backup.status === 'COMPLETED' && !backup.deletedAt`
abbrev pub is_usable : Backup → Bool
is_usable b = b.is_completed && not (is_some b.deleted_at)

abbrev pub find_execution : Text → Store → Option Execution
find_execution id s = find (λ x. text_eq x.id id) s.executions

abbrev pub find_request : Text → Store → Option Request
find_request id s = find (λ r. text_eq r.id id) s.requests

abbrev pub find_person : Text → Store → Option Person
find_person id s = find (λ p. text_eq p.id id) s.people

abbrev pub find_backup : Text → Store → Option Backup
find_backup id s = find (λ b. text_eq b.id id) s.backups

-- `orThrow`: the row, or the exception
abbrev pub present : {A : Type 0} → Option A → Error → Handler Store A
present none e s = thrown e s
present (some a) e s = done a s

-- `dataDeletionExecution.update`
abbrev pub set_execution : Text → (Execution → Execution) → Handler Store (Unit {0})
set_execution id change =
    modify (λ s. record s { executions = update_one (λ x. text_eq x.id id) change s.executions })

-- What Prisma throws for a required relation that leads nowhere.
abbrev pub inconsistent : Error
inconsistent = internal "Inconsistent query result"

-- The statements of an execution past its checks that the database refuses: those on the tables, the two
-- updates of the execution's row, and the audit entry at its end.
pub record Refusals : Type 0 where
  pub statements : Faults
  pub start : Bool
  pub finish : Bool
  pub audit : Bool

-- `recordExecutionBlocked` and the exception, unless the test holds.
abbrev pub unless_blocked : Bool → Execution → Option Text → Error → Handler Store (Unit {0})
unless_blocked true x actor e s = done tt s
unless_blocked false x actor e s = (record_audit actor blocked x.id >> throw e) s

module _ ⦃t : CaseTable⦄ where
  abbrev pub lowered : Option Text → Text
  lowered v = to_lower (trim (falsy v []))

  -- `isStageValidationEnv`
  unfoldable pub is_stage_validation_env : Env → Bool
  is_stage_validation_env env =
      let scope = lowered env.stage_only in
      let app_env = to_lower (trim (falsy env.app_env (falsy env.node_env []))) in
      (text_eq scope (codes "staging") || text_eq scope (codes "test"))
      && (text_eq app_env (codes "staging") || text_eq app_env (codes "test"))

  unfoldable pub is_manual_mode : Env → Bool
  is_manual_mode env = text_eq (lowered env.execution_mode) (codes "manual")

  abbrev pub is_enabled : Env → Bool
  is_enabled env = is_text env.execution_enabled (codes "true")

  -- `getOrCreateExecutionForRequest`; the database makes the id.
  unfoldable pub get_or_create_execution : Text → Text → Option Text → Handler Store Execution
  get_or_create_execution fresh request_id actor = do
    s ← get
    request ← present (find_request request_id s) (not_found "Data deletion request not found.")
    user ← present (find_person request.requester_id s) inconsistent
    require (is_approved (normalize_status (some (status_text request.status))))
        (bad_request "Execution can only be planned for APPROVED requests.")
    create user (find (λ x. text_eq x.request_id request_id) s.executions)
    where
      new_execution : Counts → Execution
      new_execution plan = record {
        id = fresh;
        request_id = request_id;
        status = dry_run_pending;
        dry_run = true;
        backup_run_id = none;
        backup_verified_at = none;
        backup_verification_ref = none;
        started_at = none;
        completed_at = none;
        failed = false;
        plan = plan;
        result = [];
        executed_by = none;
      }

      create : Person → Option Execution → Handler Store Execution
      create user (some existing) = return existing
      create user none = do
        s ← get
        let x = new_execution (execution_plan user s)
        modify (λ s'. record s' { executions = s'.executions ++ x ∷ [] })
        record_audit actor dry_run_planned fresh
        return x

  -- `startDryRun`; `now` and `later` are its two readings of the clock.
  unfoldable pub start_dry_run : Text → ℕ → ℕ → Option Text → Handler Store (Option Execution)
  start_dry_run id now later actor = do
    s ← get
    execution ← present (find_execution id s) (not_found "Execution not found.")
    require (is_dry_run_pending execution.status)
        (bad_request "Execution must be in DRY_RUN_PENDING to start dry-run.")
    request ← present (find_request execution.request_id s) inconsistent
    set_execution id
        (λ x. record x { status = dry_run_started; dry_run = true; started_at = some now })
    s' ← get
    user ← present (find_person request.requester_id s') inconsistent
    set_execution id (λ x. record x {
      status = dry_run_completed;
      completed_at = some later;
      result = execution_plan user s';
    })
    record_audit actor dry_run_done id
    s'' ← get
    return (find_execution id s'')

  -- `verifyBackup`
  unfoldable pub verify_backup :
      Text → Text → Option Text → ℕ → Option Text → Handler Store (Option Execution)
  verify_backup id backup_run_id verification_ref now actor = do
    s ← get
    execution ← present (find_execution id s) (not_found "Execution not found.")
    backup ← present (find_backup backup_run_id s) (bad_request "Backup run not found.")
    require (is_usable backup)
        (bad_request "Backup must be COMPLETED and not deleted for verification.")
    set_execution id (λ x. record x {
      status = backup_verified;
      backup_run_id = some backup_run_id;
      backup_verified_at = some now;
      backup_verification_ref =
          if is_empty (falsy verification_ref []) then none else verification_ref;
    })
    record_audit actor backup_confirmed id
    s' ← get
    return (find_execution id s')

  abbrev pub has_usable_backup : Option Text → Store → Bool
  has_usable_backup none s = false
  has_usable_backup (some id) s = elim (find_backup id s) [ none ↦ false | some b ↦ is_usable b ]

  -- The checks of `attemptExecution`; the row of the account is what they hand on.
  unfoldable pub check_execution : Env → Execution → Option Text → Handler Store Person
  unfolding is_manual_mode is_stage_validation_env
  check_execution env execution actor = do
    s ← get
    request ← present (find_request execution.request_id s) inconsistent
    user ← present (find_person request.requester_id s) inconsistent
    unless_blocked (is_enabled env) execution actor
        (forbidden "Destructive data deletion execution is currently disabled. Use dry-run only.")
    unless_blocked (is_manual_mode env || is_stage_validation_env env) execution actor
        (forbidden "Destructive data deletion execution requires manual rollout mode.")
    require (not (is_completed_status execution.status))
        (bad_request "Execution has already been completed. Create a new request for re-execution.")
    require (not (is_started execution.status)) (bad_request "Execution is already in progress.")
    unless_blocked (is_approved (normalize_status (some (status_text request.status)))) execution
        actor (bad_request "Execution can only run for APPROVED requests.")
    unless_blocked
        (not (is_empty (falsy execution.backup_run_id [])) && is_backup_verified execution.status)
        execution actor (bad_request "Verified backup is required before non-dry-run execution.")
    unless_blocked (has_usable_backup execution.backup_run_id s) execution actor (
        bad_request
          "Referenced backup must remain COMPLETED and not deleted before destructive execution.")
    return user

  abbrev pub mark_started : Option Text → ℕ → Execution → Execution
  mark_started actor now x = record x {
    status = execution_started;
    dry_run = false;
    started_at = some now;
    executed_by = if is_some actor then actor else x.executed_by;
  }

  abbrev pub mark_finished : Bool → ℕ → Counts → Execution → Execution
  mark_finished success later results x = record x {
    status = if success then execution_completed else execution_failed;
    completed_at = some later;
    failed = not success;
    result = results;
  }

  -- `attemptExecution` past its checks: the deletions, caught, and what is written of them.
  unfoldable pub carry_out :
      Refusals → Execution → Person → ℕ → ℕ → Option Text → Handler Store (Option Execution)
  carry_out refusals execution user now later actor = do
    require (not refusals.start) (internal "Database error.")
    set_execution execution.id (mark_started actor now)
    (success, results) ← caught
    require (not refusals.finish) (internal "Database error.")
    set_execution execution.id (mark_finished success later results)
    require (not refusals.audit) (internal "Database error.")
    record_audit actor (if success then completed else not_completed) execution.id
    require success (internal "Destructive execution failed")
    s ← get
    return (find_execution execution.id s)
    where
      caught : Handler Store (Bool × Counts)
      caught s = elim (erase refusals.statements user (record { rows = s; results = [] })) [
        | done u w ↦ done (true, w.results) w.rows
        | thrown e w ↦ done (false, w.results) w.rows
      ]

  -- `attemptExecution`
  unfoldable pub attempt_execution :
      Env → Refusals → Text → ℕ → ℕ → Option Text → Handler Store (Option Execution)
  unfolding check_execution carry_out
  attempt_execution env refusals id now later actor = do
    s ← get
    execution ← present (find_execution id s) (not_found "Execution not found.")
    user ← check_execution env execution actor
    carry_out refusals execution user now later actor

  -- `executeManuallyByRequestId`
  unfoldable pub execute_manually :
      Env → Refusals → Text → Text → Text → ℕ → ℕ → Option Text → Handler Store (Option Execution)
  unfolding attempt_execution
  execute_manually env refusals request_id confirmation backup_run_id now later actor = do
    s ← get
    execution ←
        present (find (λ x. text_eq x.request_id request_id) s.executions)
          (not_found "No execution for request.")
    require (text_eq confirmation (codes "EXECUTE DATA DELETION"))
        (bad_request "confirmationPhrase must exactly equal \"EXECUTE DATA DELETION\".")
    require
        (not (is_empty (falsy execution.backup_run_id []))
          && option_eq execution.backup_run_id (some backup_run_id))
        (bad_request "backupRunId must match the verified backup linked to this execution.")
    record_audit actor manual_confirmed execution.id
    attempt_execution env refusals execution.id now later actor
