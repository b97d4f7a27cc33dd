-- ===== src/Mail/Worker/Keeps.antt =====
-- What stays true of every row of the queue while a worker runs.
use proj_track_official.Prelude.{
  leb, not, ℕ, ◌≤◌, ◌<◌, ◌≡◌, refl, subst, Bool, true, false, Option, some, List, [], ◌∷◌, ◌&&◌,
  ltb, find, All, All-find, is_some, find_sound, arith, Bool-cases, Option-cases, inl, inr,
}
use proj_track_official.Prelude.Text.{Text, text_eq, text_eq_iff}
use proj_track_official.Prelude.Table.{update_many-All, update_one-All}
use proj_track_official.Mail.Job.{
  Job, JobType, transactional, bulk, type_eq, JobStatus, failed, is_processing, Provider,
}
use proj_track_official.Mail.Settings.{Env, per_run_limit, tx_per_min_keys, bulk_per_min_keys}
use proj_track_official.Mail.Limit.{Calendar}
use proj_track_official.Mail.Classify.{Classification}
use proj_track_official.Mail.Worker.Life.{selected_left}
use proj_track_official.Mail.Worker.{
  is_claimable, claimed, claim, Reply, Ending, was_cancelled, unrendered, over_limit, incomplete,
  delivered, undelivered, settle, ending, is_companion, pause_companion, process_claimed, World,
  process_row, process_rows, process_queue_type, selected, is_abandoned, recovered,
  recover_stale_locks, process_due_jobs, fail, application_error, is_over_limit,
}

abbrev pub is_failed : JobStatus → Bool
is_failed failed = true
is_failed _ = false

-- A row is as it should be: no more attempts than allowed, a lock exactly while it is processed, and
-- a failed row has an attempt left and a time for it.
pub record IsSound (j : Job) : Type 0 where
  pub within_budget : j.attempts ≤ j.max_attempts
  pub lock_fits : is_processing j.status ≡ is_some j.locked_at
  pub can_retry : (is_failed j.status && leb j.max_attempts j.attempts) ≡ false
  pub retry_set : (is_failed j.status && not (is_some j.scheduled_at)) ≡ false

pub claimed-IsSound :
    (p : Provider) (worker_id : Text) (ty : JobType) (now at : ℕ) (row j : Job)
    → row.attempts < row.max_attempts
    → is_claimable ty now row j ≡ true
    → IsSound (claimed p worker_id at row j)
claimed-IsSound p worker_id ty now at row j left ok = record {
  within_budget = ground arith;
  lock_fits = refl;
  can_retry = ground arith;
  retry_set = ground arith;
}

fail-IsSound : (c : Classification) (at : ℕ) (j : Job) → IsSound j → IsSound (fail c at j j)
fail-IsSound c at j h = elim (Bool-cases (c.retryable && ltb j.attempts j.max_attempts)) [
  | inl e ↦ rw e record {
    within_budget = h.within_budget;
    lock_fits = refl;
    can_retry = ground arith;
    retry_set = refl;
  }
  | inr e ↦ rw e record {
    within_budget = h.within_budget;
    lock_fits = refl;
    can_retry = ground arith;
    retry_set = ground arith;
  }
]

-- A row that is neither failed nor processed, and unlocked, needs only its budget.
at_rest :
    (j : Job)
    → j.attempts ≤ j.max_attempts
    → is_processing j.status ≡ is_some j.locked_at
    → is_failed j.status ≡ false
    → IsSound j
at_rest j budget lock rest = record {
  within_budget = budget;
  lock_fits = lock;
  can_retry = ground arith;
  retry_set = ground arith;
}

pub settle-IsSound : (at : ℕ) (e : Ending) (j : Job) → IsSound j → IsSound (settle j at e j)
unfolding settle
settle-IsSound at was_cancelled j h = at_rest _ h.within_budget refl refl
settle-IsSound at unrendered j h = at_rest _ h.within_budget refl refl
settle-IsSound at over_limit j h = let budget = h.within_budget in at_rest _ (omega arith) refl refl
settle-IsSound at incomplete j h = fail-IsSound application_error at j h
settle-IsSound at (delivered p m) j h = at_rest _ h.within_budget refl refl
settle-IsSound at (undelivered c) j h = fail-IsSound c at j h

recovered-IsSound : (j : Job) → IsSound j → IsSound (recovered j)
recovered-IsSound j h = elim (Bool-cases (ltb j.attempts j.max_attempts)) [
  | inl e ↦ rw e (at_rest _ h.within_budget refl refl)
  | inr e ↦ rw e (at_rest _ h.within_budget refl refl)
]

pub recover_stale_locks-IsSound :
    (env : Env) (now : ℕ) (heartbeat : Option ℕ) (jobs : List Job)
    → All IsSound jobs
    → All IsSound (recover_stale_locks env now heartbeat jobs)
unfolding recover_stale_locks
recover_stale_locks-IsSound env now heartbeat jobs =
    update_many-All IsSound (is_abandoned env now heartbeat) recovered
      (λ j h e. recovered-IsSound j h) jobs

claim-IsSound :
    (p : Provider) (worker_id : Text) (ty : JobType) (now at : ℕ) (row : Job) (jobs : List Job)
    → row.attempts < row.max_attempts
    → All IsSound jobs
    → All IsSound ((claim p worker_id ty now at row jobs).0)
unfolding claim
claim-IsSound p worker_id ty now at row jobs left =
    update_many-All IsSound (is_claimable ty now row) (claimed p worker_id at row)
      (λ j h e. claimed-IsSound p worker_id ty now at row j left e) jobs

process_claimed-IsSound :
    (job : Job) (allowed : Bool) (r : Reply) (jobs : List Job)
    → find (λ j. text_eq j.id job.id) jobs ≡ some job
    → All IsSound jobs
    → All IsSound (process_claimed job allowed r jobs)
unfolding process_claimed
process_claimed-IsSound job allowed r jobs found h =
    let e = ending job allowed r in
    let written =
      update_one-All IsSound (λ j. text_eq j.id job.id) (settle job r.at e) jobs found
        (settle-IsSound r.at e job (All-find IsSound (λ j. text_eq j.id job.id) jobs h found)) h in
    elim (Bool-cases (is_over_limit e && type_eq job.job_type bulk)) [
      | inl f ↦ rw f (
          update_many-All IsSound (is_companion job) pause_companion
            (λ j k g. at_rest _ k.within_budget refl refl) _ written)
      | inr f ↦ rw f written
    ]

module _ ⦃calendar : Calendar⦄ where
  process_row-IsSound :
      (w : World) (ty : JobType) (now : ℕ) (row : Job) (jobs : List Job)
      → row.attempts < row.max_attempts
      → All IsSound jobs
      → All IsSound ((process_row w ty now row jobs).0)
  unfolding process_row
  process_row-IsSound w ty now row jobs left h =
      let at = w.claim_at row in
      let result = claim w.provider w.worker_id ty now at row jobs in
      let kept = claim-IsSound w.provider w.worker_id ty now at row jobs left h in
      elim (Bool-cases (result.1)) [
        | inr e ↦ rw e kept
        | inl e ↦ rw e (elim (Option-cases (find (λ j. text_eq j.id row.id) (result.0))) [
          | inl missing ↦ rw missing kept
          | inr (job, found) ↦
              let hit = find_sound (λ j. text_eq j.id row.id) (result.0) found in
              let same : row.id ≡ job.id = ground (arith, hit, text_eq_iff job.id row.id) in
              let found' =
                subst (λ i. find (λ j. text_eq j.id i) (result.0) ≡ some job) same found in
              rw found (process_claimed-IsSound job _ (w.reply job) (result.0) found' kept)
        ])
      ]

  process_rows-IsSound :
      (w : World) (ty : JobType) (now : ℕ) (rows jobs : List Job)
      → All (λ row. row.attempts < row.max_attempts) rows
      → All IsSound jobs
      → All IsSound ((process_rows w ty now rows jobs).0)
  unfolding process_rows
  process_rows-IsSound w ty now [] jobs left h = h
  process_rows-IsSound w ty now (row ∷ rows) jobs (left, more) h =
      process_rows-IsSound w ty now rows _ more (process_row-IsSound w ty now row jobs left h)

  process_queue_type-IsSound :
      (w : World) (ty : JobType) (limit now : ℕ) (jobs : List Job)
      → All IsSound jobs
      → All IsSound ((process_queue_type w ty limit now jobs).0)
  unfolding process_queue_type
  process_queue_type-IsSound w ty limit now jobs h =
      process_rows-IsSound w ty now (selected ty now limit jobs) jobs
        (selected_left ty now limit jobs) h

  -- A pass of the worker leaves every row of the queue sound, whatever the templates, the limits, the
  -- suppression list and the provider answer: if each row had used at most its attempts, was locked
  -- exactly while it was processed and, once failed, had an attempt left and a time set for it, then
  -- all this holds afterwards.
  pub process_due_jobs-IsSound :
      (w : World) (now now_tx now_bulk : ℕ) (heartbeat : Option ℕ) (jobs : List Job)
      → All IsSound jobs
      → All IsSound ((process_due_jobs w now now_tx now_bulk heartbeat jobs).0)
  unfolding process_due_jobs
  process_due_jobs-IsSound w now now_tx now_bulk heartbeat jobs h =
      process_queue_type-IsSound w bulk (per_run_limit bulk_per_min_keys 20 w.env) now_bulk _ (
        process_queue_type-IsSound w transactional (per_run_limit tx_per_min_keys 60 w.env) now_tx _
          (recover_stale_locks-IsSound w.env now heartbeat jobs h))
