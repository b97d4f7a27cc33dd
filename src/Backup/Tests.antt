-- ===== src/Backup/Tests.antt =====
-- The laws of the retirement of backups at concrete runs.
use proj_track_official.Prelude.{ℕ, ◌≡◌, refl, Bool, false, none, some, List, [], ◌∷◌, find}
use proj_track_official.Prelude.Text.{Text, codes, text_eq}
use proj_track_official.Backup.Retention.{Run, completed, cleanup_expired, latest_successful}
use proj_track_official.Backup.Retention.Laws.{cleanup_expired-keeps_latest}

abbrev run : Text → ℕ → Run
run id t = record {
  id = id;
  status = completed;
  is_protected = false;
  file_name = some id;
  started_at = t;
  completed_at = some t;
  expires_at = none;
  deleted_at = none;
}

abbrev runs : List Run
runs = run (codes "old") 10 ∷ (run (codes "new") 20 ∷ [])

abbrev never : Run → Bool
never r = false

newest : latest_successful runs ≡ some (run (codes "new") 20)
unfolding latest_successful
newest = refl

cleanup_expired-keeps_latest_example :
    find (λ x. text_eq x.id (codes "new")) ((cleanup_expired never 1 1 1000000000 7 runs).0)
    ≡ find (λ x. text_eq x.id (codes "new")) runs
cleanup_expired-keeps_latest_example =
    cleanup_expired-keeps_latest never 1 1 1000000000 7 runs (run (codes "new") 20) newest
