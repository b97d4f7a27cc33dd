-- ===== src/Mail/Worker/Pass.antt =====
-- How much a pass of the worker does.
use proj_track_official.Prelude.{ℕ, ◌+◌, ◌≤◌, Option, List, [], ◌∷◌, arith, length, length-take-le}
use proj_track_official.Mail.Job.{Job, JobType, transactional, bulk}
use proj_track_official.Mail.Settings.{per_run_limit, tx_per_min_keys, bulk_per_min_keys}
use proj_track_official.Mail.Limit.{Calendar}
use proj_track_official.Mail.Worker.{
  World, process_row, process_rows, process_queue_type, process_due_jobs, recover_stale_locks,
  selected,
}

module _ ⦃calendar : Calendar⦄ where
  process_rows-le :
      (w : World) (ty : JobType) (now : ℕ) (rows jobs : List Job)
      → ((process_rows w ty now rows jobs).1) ≤ length rows
  unfolding process_rows
  process_rows-le w ty now [] jobs = omega arith
  process_rows-le w ty now (row ∷ rows) jobs =
      let rest = process_rows-le w ty now rows ((process_row w ty now row jobs).0) in ground arith

  selected-le :
      (ty : JobType) (now limit : ℕ) (jobs : List Job) → length (selected ty now limit jobs) ≤ limit
  unfolding selected
  selected-le ty now limit jobs = length-take-le limit _

  pub process_queue_type-le :
      (w : World) (ty : JobType) (limit now : ℕ) (jobs : List Job)
      → ((process_queue_type w ty limit now jobs).1) ≤ limit
  unfolding process_queue_type
  process_queue_type-le w ty limit now jobs =
      let a = process_rows-le w ty now (selected ty now limit jobs) jobs in
      let b = selected-le ty now limit jobs in omega arith

  -- A pass processes at most as many jobs as the limits for one pass of the two queues allow together,
  -- whatever the queue holds.
  pub process_due_jobs-le :
      (w : World) (now now_tx now_bulk : ℕ) (heartbeat : Option ℕ) (jobs : List Job)
      → ((process_due_jobs w now now_tx now_bulk heartbeat jobs).1)
        ≤ per_run_limit tx_per_min_keys 60 w.env + per_run_limit bulk_per_min_keys 20 w.env
  unfolding process_due_jobs
  process_due_jobs-le w now now_tx now_bulk heartbeat jobs =
      let tx = per_run_limit tx_per_min_keys 60 w.env in
      let jobs₁ = recover_stale_locks w.env now heartbeat jobs in
      let jobs₂ = (process_queue_type w transactional tx now_tx jobs₁).0 in
      let a = process_queue_type-le w transactional tx now_tx jobs₁ in
      let b =
        process_queue_type-le w bulk (per_run_limit bulk_per_min_keys 20 w.env) now_bulk jobs₂ in
      omega (arith, a, b)
