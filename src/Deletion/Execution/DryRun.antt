-- ===== src/Deletion/Execution/DryRun.antt =====
-- The steps before the deletions: the dry run and the verified backup.
use proj_track_official.Prelude.{ℕ, ◌≡◌, ◌&&◌, Option, some, arith, Option-cases, inl, inr, is_some}
use proj_track_official.Prelude.Text.{Text, CaseTable}
use proj_track_official.Prelude.Outcome.{final, succeeded}
use proj_track_official.Deletion.Store.{Store}
use proj_track_official.Deletion.Execution.{
  find_execution, find_request, find_person, find_backup, has_usable_backup, verify_backup,
  start_dry_run,
}

-- A dry run writes to executions and to the audit log only, whether it returns or throws.
pub start_dry_run-harmless :
    ⦃t : CaseTable⦄
    → (id : Text) (now later : ℕ) (actor : Option Text) (s : Store)
    → final (start_dry_run id now later actor s) ≡ record s {
      executions = (final (start_dry_run id now later actor s)).executions;
      audit = (final (start_dry_run id now later actor s)).audit;
    }
unfolding start_dry_run
start_dry_run-harmless id now later actor s = elim (Option-cases (find_execution id s)) [
  | inl missing ↦ ground arith
  | inr (x, found) ↦ elim (Option-cases (find_request x.request_id s)) [
    | inl missing ↦ ground arith
    | inr (r, found') ↦ elim (Option-cases (find_person r.requester_id s)) [
      | inl missing ↦ ground arith
      | inr (u, found'') ↦ ground arith
    ]
  ]
]

-- Linking a backup returns exactly when the execution and the backup exist, and the backup is completed
-- and not deleted: the status of the execution is not asked for.
pub verify_backup_iff :
    ⦃t : CaseTable⦄
    → (id backup : Text) (ref : Option Text) (now : ℕ) (actor : Option Text) (s : Store)
    → succeeded (verify_backup id backup ref now actor s)
      ≡ (is_some (find_execution id s) && has_usable_backup (some backup) s)
unfolding verify_backup
verify_backup_iff id backup ref now actor s = elim (Option-cases (find_execution id s)) [
  | inl missing ↦ ground arith
  | inr (x, found) ↦ elim (Option-cases (find_backup backup s)) [
    | inl missing ↦ ground arith
    | inr (b, found') ↦ ground arith
  ]
]
