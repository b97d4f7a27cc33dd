-- ===== src/Backup/Retention.antt =====
-- The retirement of old backups: backend/src/backups/backup-retention.service.ts. Times are
-- milliseconds; the days and the count to retain come as the numbers read from the options or the
-- environment.
pub mod Laws
use proj_track_official.Prelude.{
  ℕ, suc, ◌+◌, ◌*◌, Bool, true, false, ◌&&◌, ◌||◌, not, Option, none, some, List, [], ◌∷◌, ◌==◌,
  ltb, leb, if◌then◌else◌, keep, take, any, is_some, or_else,
}
use Prim.Native.Nat.{max}
use proj_track_official.Prelude.Text.{Text, text_eq}
use proj_track_official.Prelude.Table.{update_one}

-- `BackupStatus`, with one constructor for the values that the service does not tell apart.
pub data Status : Type 0 where
  running completed other : Status

pub record Run : Type 0 where
  pub id : Text
  pub status : Status
  pub is_protected : Bool
  pub file_name : Option Text
  pub started_at : ℕ
  pub completed_at : Option ℕ
  pub expires_at : Option ℕ
  pub deleted_at : Option ℕ

abbrev pub is_completed : Run → Bool
is_completed r = is r.status
  where
    is : Status → Bool
    is completed = true
    is _ = false

abbrev pub is_running : Run → Bool
is_running r = is r.status
  where
    is : Status → Bool
    is running = true
    is _ = false

-- `completedAt: 'desc'`; null comes first.
completed_later : Option ℕ → Option ℕ → Bool
completed_later none (some u) = true
completed_later (some t) (some u) = ltb u t
completed_later _ none = false

-- `orderBy: [{ completedAt: 'desc' }, { startedAt: 'desc' }]`
before : Run → Run → Bool
unfolding completed_later
before a b =
    completed_later a.completed_at b.completed_at
    || (not (completed_later b.completed_at a.completed_at) && leb b.started_at a.started_at)

insert : Run → List Run → List Run
unfolding before
insert r [] = r ∷ []
insert r (x ∷ xs) = let rest = insert r xs in if before r x then r ∷ (x ∷ xs) else x ∷ rest

unfoldable pub newest_first : List Run → List Run
unfolding insert
newest_first [] = []
newest_first (r ∷ rs) = insert r (newest_first rs)

abbrev pub first : List Run → Option Run
first [] = none
first (r ∷ rs) = some r

-- `latestSuccessful`; among runs completed at one instant the later start comes first.
unfoldable pub latest_successful : List Run → Option Run
unfolding newest_first
latest_successful runs =
    first (newest_first (keep (λ r. is_completed r && not (is_some r.deleted_at)) runs))

-- `visibleRuns`
unfoldable pub visible_runs : List Run → List Run
unfolding newest_first
visible_runs runs = take 500 (
    newest_first
      (keep (λ r. not (is_some r.deleted_at) && not r.is_protected && not (is_running r)) runs))

abbrev pub is_run : Option Run → Run → Bool
is_run none r = false
is_run (some l) r = text_eq l.id r.id

-- `keepSuccessfulIds.has(run.id)`
unfoldable pub is_retained : ℕ → List Run → Run → Bool
unfolding latest_successful visible_runs
is_retained count runs r =
    any (λ x. text_eq x.id r.id) (take count (keep is_completed (visible_runs runs)))
    || is_run (latest_successful runs) r

-- `retentionDays * 24 * 60 * 60 * 1000`
abbrev pub days : ℕ → ℕ
days n = n * 86400000

-- The test of `expired`.
unfoldable pub is_expired : ℕ → ℕ → ℕ → List Run → Run → Bool
unfolding latest_successful is_retained
is_expired retention_days count now runs r =
    not (is_run (latest_successful runs) r)
    && not (is_completed r && is_retained count runs r)
    && (ltb (or_else r.completed_at r.started_at + days retention_days) now
        || row_expired r.expires_at
        || (is_completed r && not (is_retained count runs r)))
  where
    row_expired : Option ℕ → Bool
    row_expired none = false
    row_expired (some t) = ltb t now

unfoldable pub expired : ℕ → ℕ → ℕ → List Run → List Run
unfolding is_expired visible_runs
expired retention_days count now runs =
    take 50 (keep (is_expired retention_days count now runs) (visible_runs runs))

-- What the service reports.
pub record Report : Type 0 where
  pub deleted : ℕ
  pub failed : ℕ

abbrev pub mark_deleted : ℕ → Run → Run
mark_deleted at r = record r { deleted_at = some at }

-- One run of the loop: `refuses` says whether the storage, or the update, throws.
unfoldable pub retire : (Run → Bool) → ℕ → Option Run → Run → List Run → Report → List Run × Report
retire refuses at latest r runs report =
    if is_run latest r
    then (runs, report)
    else if refuses r
    then (runs, record report { failed = suc report.failed })
    else (
      update_one (λ x. text_eq x.id r.id) (mark_deleted at) runs,
      record report { deleted = suc report.deleted },
    )

unfoldable pub retire_all :
    (Run → Bool) → ℕ → Option Run → List Run → List Run → Report → List Run × Report
unfolding retire
retire_all refuses at latest [] runs report = (runs, report)
retire_all refuses at latest (r ∷ rs) runs report =
    let (runs', report') = retire refuses at latest r runs report in
    retire_all refuses at latest rs runs' report'

-- `cleanupExpired`
unfoldable pub cleanup_expired : (Run → Bool) → ℕ → ℕ → ℕ → ℕ → List Run → List Run × Report
unfolding retire_all expired latest_successful
cleanup_expired refuses retention_days retention_count now at runs =
    retire_all refuses at (latest_successful runs)
      (expired (max 1 retention_days) (max 1 retention_count) now runs) runs
      (record { deleted = 0; failed = 0 })
