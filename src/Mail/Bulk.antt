-- ===== src/Mail/Bulk.antt =====
-- The operations on many mail jobs at once: `retryJobs` and `resumePausedJobs` of
-- backend/src/mail/mail.service.ts. The jobs to retry are read before the first of them is written; the
-- check that the transport is ready is left out, and so are the texts of the reasons
-- and the order in which the answer lists the ids.
use proj_track_official.Prelude.{
  ℕ, Bool, true, false, ◌&&◌, ◌||◌, not, Option, none, some, List, [], ◌∷◌, ◌++◌, any, keep, count,
  if◌then◌else◌,
}
use proj_track_official.Prelude.Text.{Text, text_eq, is_empty, trim, nullish, option_eq, member}
use proj_track_official.Prelude.Table.{update_many}
use proj_track_official.Prelude.Outcome.{
  bad_request, Handler, ◌>>=◌, ◌>>◌, get, modify, require, throw, return, Result, ok, err,
}
use proj_track_official.Mail.Job.{Job, JobStatus, queued, paused_limit_reached, Provider}
use proj_track_official.Mail.Queue.{Entry, Queue, has_id}
use proj_track_official.Mail.Queue.Manage.{set_job, as_retried, assert_retry_allowed}
use proj_track_official.School.Uploads.{distinct, non_empty}
pub mod Spared

-- `normalizeIds`
abbrev pub normalize_ids : List Text → List Text
normalize_ids ids = distinct (non_empty ids)

-- What the loop of `retryJobs` has done so far.
pub record Progress : Type 0 where
  pub rows : Queue
  pub retried : List Text
  pub blocked : List Text

-- One turn of the loop, for a job as it was read.
unfoldable pub retry_one : Provider → Bool → Progress → Entry → Progress
unfolding assert_retry_allowed
retry_one provider force p e = elim (assert_retry_allowed e.job force) [
  | ok allowed ↦ record p {
    rows = set_job e.job.id (as_retried provider) p.rows;
    retried = p.retried ++ e.job.id ∷ [];
  }
  | err reason ↦ record p { blocked = p.blocked ++ e.job.id ∷ [] }
]

-- The loop of `retryJobs`
unfoldable pub retry_each : Provider → Bool → Progress → List Entry → Progress
unfolding retry_one
retry_each provider force p [] = p
retry_each provider force p (e ∷ es) = retry_each provider force (retry_one provider force p e) es

-- The answer of `retryJobs`.
pub record Retries : Type 0 where
  pub retried_ids : List Text
  pub blocked_ids : List Text
  pub missing_ids : List Text

abbrev pub selected_by : List Text → Entry → Bool
selected_by ids e = member e.job.id ids

-- `retryJobs`
unfoldable pub retry_jobs : Provider → List Text → Bool → Handler Queue Retries
unfolding retry_each
retry_jobs provider ids force = do
  let wanted = normalize_ids ids
  require (not (is_none wanted)) (bad_request "Select at least one mail job to retry.")
  q ← get
  let p =
      retry_each provider force (record { rows = q; retried = []; blocked = [] })
        (keep (selected_by wanted) q)
  modify (λ q. p.rows)
  return (record {
    retried_ids = p.retried;
    blocked_ids = p.blocked;
    missing_ids = keep (λ id. not (any (has_id id) q)) wanted;
  })
  where
    is_none : List Text → Bool
    is_none [] = true
    is_none (id ∷ ids) = false

abbrev pub is_paused : JobStatus → Bool
is_paused paused_limit_reached = true
is_paused _ = false

-- A filter that may be left out.
abbrev pub fits : Option Text → Option Text → Bool
fits wanted column =
    is_empty (trim (nullish wanted [])) || option_eq column (some (trim (nullish wanted [])))

-- The `where` of `resumePausedJobs`
abbrev pub is_resumable : Option Text → Option Text → Entry → Bool
is_resumable campaign batch e =
    is_paused e.job.status && fits batch e.job.batch_key && fits campaign e.job.campaign_id

abbrev pub as_resumed : Provider → Job → Job
as_resumed provider job = record job {
  status = queued;
  scheduled_at = none;
  attempts = 0;
  last_attempt_at = none;
  locked_at = none;
  locked_by = none;
  failure_reason = none;
  retryable_failure = none;
  archived_at = none;
  provider = some provider;
}

-- `resumePausedJobs`, with the number of jobs that it resumed
unfoldable pub resume_paused_jobs : Provider → Option Text → Option Text → Handler Queue ℕ
resume_paused_jobs provider campaign batch = do
  q ← get
  modify (
      update_many (is_resumable campaign batch)
        (λ (e : Entry). record e { job = as_resumed provider e.job }))
  return (count (is_resumable campaign batch) q)
