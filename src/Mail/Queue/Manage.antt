-- ===== src/Mail/Queue/Manage.antt =====
-- Retrying, cancelling and archiving one mail job: `retryJob`, `cancelJob` and `archiveJob` of
-- backend/src/mail/mail.service.ts. The payload and the subject of the job are left out, and so is the check
-- that the transport is ready.
use proj_track_official.Prelude.{
  ℕ, Bool, true, false, ◌||◌, not, Option, none, some, find, if◌then◌else◌, or_else,
}
use proj_track_official.Prelude.Text.{Text}
use proj_track_official.Prelude.Table.{update_one}
use proj_track_official.Prelude.Outcome.{
  bad_request, not_found, Handler, ◌>>=◌, ◌>>◌, get, modify, require, lift, Result, ok, err,
}
use proj_track_official.Mail.Job.{
  Job, JobStatus, queued, sent, failed, dead, cancelled, paused_limit_reached, Provider,
  FailureReason, is_sent,
}
use proj_track_official.Mail.Classify.{is_listed_retryable}
use proj_track_official.Mail.Queue.{Entry, Queue, has_id}

-- `isRetryableFailure`
unfoldable pub is_retryable_failure : Job → Bool
is_retryable_failure job = go job.status job.retryable_failure job.failure_reason
  where
    by_reason : Option FailureReason → Bool
    by_reason none = false
    by_reason (some reason) = is_listed_retryable reason

    go : JobStatus → Option Bool → Option FailureReason → Bool
    go failed flag reason = true
    go paused_limit_reached flag reason = true
    go _ none reason = by_reason reason
    go _ (some flag) reason = flag

-- `assertRetryAllowed`
unfoldable pub assert_retry_allowed : Job → Bool → Result (Unit {0})
unfolding is_retryable_failure
assert_retry_allowed job force = go job.status
  where
    go : JobStatus → Result (Unit {0})
    go sent = err (bad_request "Sent mail jobs cannot be retried.")
    go cancelled = err (bad_request "Cancelled mail jobs cannot be retried.")
    go failed = ok tt
    go paused_limit_reached = ok tt
    go dead =
        if is_retryable_failure job || force
        then ok tt
        else err (bad_request "This job is marked as non-retryable.")
    go _ = err (bad_request "Only failed, dead, or paused mail jobs can be retried.")

abbrev pub look_up : Text → Queue → Result Entry
look_up id q = elim (find (has_id id) q) [
  | none ↦ err (not_found "Mail job not found.")
  | some e ↦ ok e
]

abbrev pub set_job : Text → (Job → Job) → Queue → Queue
set_job id change q = update_one (has_id id) (λ (e : Entry). record e { job = change e.job }) q

abbrev pub as_retried : Provider → Job → Job
as_retried provider job = record job {
  status = queued;
  scheduled_at = none;
  attempts = 0;
  failure_reason = none;
  retryable_failure = none;
  provider_message_id = none;
  locked_at = none;
  locked_by = none;
  sent_at = none;
  archived_at = none;
  provider = some provider;
}

-- `retryJob`
unfoldable pub retry_job : Provider → Text → Bool → Handler Queue (Unit {0})
unfolding assert_retry_allowed
retry_job provider id force = do
  q ← get
  e ← lift (look_up id q)
  allowed ← lift (assert_retry_allowed e.job force)
  modify (set_job e.job.id (as_retried provider))

abbrev pub is_queued : JobStatus → Bool
is_queued queued = true
is_queued _ = false

abbrev pub as_cancelled : Job → Job
as_cancelled job = record job {
  status = cancelled;
  scheduled_at = none;
  failure_reason = none;
  retryable_failure = none;
  locked_at = none;
  locked_by = none;
}

-- `cancelJob`
unfoldable pub cancel_job : Text → Handler Queue (Unit {0})
cancel_job id = do
  q ← get
  e ← lift (look_up id q)
  require (not (is_sent e.job.status)) (bad_request "Sent mail jobs cannot be cancelled.")
  require (is_queued e.job.status) (bad_request "Only queued mail jobs can be cancelled.")
  modify (set_job e.job.id as_cancelled)

abbrev pub is_archivable : JobStatus → Bool
is_archivable sent = true
is_archivable dead = true
is_archivable cancelled = true
is_archivable _ = false

-- `archiveJob`
unfoldable pub archive_job : Text → ℕ → Handler Queue (Unit {0})
archive_job id now = do
  q ← get
  e ← lift (look_up id q)
  require (is_archivable e.job.status)
      (bad_request "Only sent, dead, or cancelled mail jobs can be archived.")
  modify (set_job e.job.id (λ job. record job { archived_at = some (or_else job.archived_at now) }))
