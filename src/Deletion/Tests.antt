-- ===== src/Deletion/Tests.antt =====
-- The laws of the deletion at a concrete account.
use proj_track_official.Prelude.{
  true, false, ◌≡◌, refl, true, false, ◌&&◌, Option, none, some, [], ◌∷◌, arith, is_some,
}
use proj_track_official.Prelude.Text.{
  codes, text_eq, ascii_only, trim, to_lower, to_upper, underscore_spaces,
}
use proj_track_official.Prelude.Outcome.{done, thrown, succeeded, final, internal, Outcome}
use proj_track_official.Auth.User.{active}
use proj_track_official.Deletion.Store.{
  Request, approved, Execution, backup_verified, execution_completed, Person, email_job,
  account_action_token, Store,
}
use proj_track_official.Deletion.Request.{
  create_request, cancel_own_request, approve, deny, normalize_status,
}
use proj_track_official.Deletion.Request.Laws.{
  HasOnePendingEach, create_request-HasOnePendingEach, closed_request-unchanged,
}
use proj_track_official.Deletion.Erasure.{Faults, Work, erase, execution_plan}
use proj_track_official.Deletion.Erasure.Laws.{IsForgotten, counted, erase-execution_plan}
use proj_track_official.Deletion.Execution.{
  Refusals, Env, find_execution, has_usable_backup, attempt_execution, verify_backup,
}
use proj_track_official.Deletion.Execution.Laws.{IsCleared}
use proj_track_official.Deletion.Execution.Outcomes.{
  attempt_execution-IsForgotten, attempt_execution-refuses_repeat,
}
use proj_track_official.Deletion.Execution.DryRun.{verify_backup_iff}

abbrev ann : Person
ann = record {
  id = codes "u";
  email = codes "a";
  password_hash = none;
  first_name = codes "Ann";
  last_name = codes "Cruz";
  phone = none;
  office = none;
  avatar = none;
  status = active;
}

abbrev request : Request
request = record {
  id = codes "r";
  requester_id = codes "u";
  status = approved;
  reason = none;
  confirmation_phrase = codes "DELETE MY DATA";
  reviewed_by = none;
  reviewed_at = none;
  review_note = none;
}

abbrev execution : Execution
execution = record {
  id = codes "x";
  request_id = codes "r";
  status = backup_verified;
  dry_run = true;
  backup_run_id = some (codes "b");
  backup_verified_at = some 1;
  backup_verification_ref = none;
  started_at = none;
  completed_at = none;
  failed = false;
  plan = [];
  result = [];
  executed_by = none;
}

abbrev store : Store
store = record {
  requests = request ∷ [];
  executions = execution ∷ [];
  backups = record { id = codes "b"; is_completed = true; deleted_at = none } ∷ [];
  people = ann ∷ [];
  email_jobs = record { id = codes "m"; owner = codes "a" } ∷ [];
  notifications = [];
  pending_uploads = [];
  student_profiles = record { id = codes "p"; owner = codes "u" } ∷ [];
  teacher_profiles = [];
  enrollments = record { id = codes "e"; owner = codes "p" } ∷ [];
  group_members = [];
  subjects = [];
  auth_sessions = [];
  account_action_tokens = [];
  audit = [];
}

abbrev finished : Store
finished = record store { executions = record execution { status = execution_completed } ∷ [] }

abbrev env : Env
env = record {
  execution_enabled = some (codes "true");
  execution_mode = some (codes "manual");
  stage_only = none;
  app_env = none;
  node_env = none;
}

abbrev no_faults : Faults
no_faults c = none

-- The database refuses the statement on the account's links.
abbrev late_fault : Faults
late_fault account_action_token = some "foreign key"
late_fault _ = none

abbrev all_granted : Refusals
all_granted = record { statements = no_faults; start = false; finish = false; audit = false }

abbrev late_refusal : Refusals
late_refusal = record { statements = late_fault; start = false; finish = false; audit = false }

abbrev unfinished : Refusals
unfinished = record { statements = no_faults; start = false; finish = true; audit = false }

store-HasOnePendingEach : HasOnePendingEach store
store-HasOnePendingEach user = ground arith

create_request-HasOnePendingEach_example : HasOnePendingEach (
    final (create_request (codes "r2") (codes "u") (some (codes "DELETE MY DATA")) none none store))
create_request-HasOnePendingEach_example =
    create_request-HasOnePendingEach (codes "r2") (codes "u") (some (codes "DELETE MY DATA")) none
      none store store-HasOnePendingEach

closed_request-unchanged_example :
    (succeeded (cancel_own_request ⦃t = ascii_only⦄ (codes "r") (codes "u") 5 none store) ≡ false)
    × (final (cancel_own_request ⦃t = ascii_only⦄ (codes "r") (codes "u") 5 none store) ≡ store)
    × (succeeded (approve ⦃t = ascii_only⦄ (codes "r") 5 none store) ≡ false)
    × (final (approve ⦃t = ascii_only⦄ (codes "r") 5 none store) ≡ store)
    × (succeeded (deny ⦃t = ascii_only⦄ (codes "r") 5 none none store) ≡ false)
    × (final (deny ⦃t = ascii_only⦄ (codes "r") 5 none none store) ≡ store)
unfolding text_eq
closed_request-unchanged_example =
    closed_request-unchanged ⦃t = ascii_only⦄ (codes "r") (codes "u") 5 none none store request refl
      refl

abbrev erased_work : Work
erased_work = left (erase no_faults ann (record { rows = store; results = [] }))
  where
    left : Outcome Work (Unit {0}) → Work
    left (done u w) = w
    left (thrown e w) = w

erased : erase no_faults ann (record { rows = store; results = [] }) ≡ done tt erased_work
unfolding erase text_eq
erased = refl

erase-execution_plan_example :
    counted email_job erased_work.results ≡ counted email_job (execution_plan ann store)
erase-execution_plan_example = erase-execution_plan no_faults ann store erased_work email_job erased

abbrev after : Store
after = final (attempt_execution ⦃t = ascii_only⦄ env all_granted (codes "x") 7 8 none store)

abbrev answer : Option Execution
answer = find_execution (codes "x") after

attempted :
    attempt_execution ⦃t = ascii_only⦄ env all_granted (codes "x") 7 8 none store
    ≡ done answer after
unfolding attempt_execution erase normalize_status text_eq trim to_lower to_upper underscore_spaces
attempted = refl

attempt_execution-IsForgotten_example :
    (user : Person) × IsCleared ⦃t = ascii_only⦄ env execution user store
    × IsForgotten user store after
unfolding text_eq
attempt_execution-IsForgotten_example =
    attempt_execution-IsForgotten ⦃t = ascii_only⦄ env all_granted (codes "x") 7 8 none store after
      answer execution refl attempted

abbrev after_fault : Store
after_fault = final (attempt_execution ⦃t = ascii_only⦄ env late_refusal (codes "x") 7 8 none store)

attempt_failed :
    attempt_execution ⦃t = ascii_only⦄ env late_refusal (codes "x") 7 8 none store
    ≡ thrown (internal "Destructive execution failed") after_fault
unfolding attempt_execution erase normalize_status text_eq trim to_lower to_upper underscore_spaces
attempt_failed = refl

-- The update of the execution's row is refused after the account was forgotten.
abbrev after_refusal : Store
after_refusal = final (attempt_execution ⦃t = ascii_only⦄ env unfinished (codes "x") 7 8 none store)

attempt_execution-refuses_repeat_example :
    (succeeded (attempt_execution ⦃t = ascii_only⦄ env all_granted (codes "x") 7 8 none finished)
      ≡ false)
    × (final (attempt_execution ⦃t = ascii_only⦄ env all_granted (codes "x") 7 8 none finished)
        ≡ record finished {
          audit =
              (final (
                attempt_execution ⦃t = ascii_only⦄ env all_granted
                  (codes "x")
                  7
                  8
                  none
                  finished)).audit;
        })
unfolding text_eq
attempt_execution-refuses_repeat_example =
    attempt_execution-refuses_repeat ⦃t = ascii_only⦄ env all_granted (codes "x") 7 8 none finished
      (record execution { status = execution_completed }) refl refl

verify_backup_iff_example :
    succeeded (verify_backup ⦃t = ascii_only⦄ (codes "x") (codes "b") none 9 none finished) ≡ (
      is_some (find_execution (codes "x") finished)
      && has_usable_backup ⦃t = ascii_only⦄ (some (codes "b")) finished)
verify_backup_iff_example =
    verify_backup_iff ⦃t = ascii_only⦄ (codes "x") (codes "b") none 9 none finished
