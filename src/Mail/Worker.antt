-- ===== src/Mail/Worker.antt =====
-- The queue worker: backend/src/mail/mail.worker.ts. What the worker is told by the suppression
-- list, the template renderer and the provider comes with each job as a `Reply`; failures of the
-- database itself are left out, and so are the logs.
pub mod Life
pub mod Race
pub mod Keeps
pub mod Pass
mod Tests
use proj_track_official.Prelude.{
  ℕ, zero, suc, ◌+◌, ◌-◌, ◌*◌, Bool, true, false, ◌&&◌, ◌||◌, not, Option, none, some, List, [],
  ◌∷◌, ◌==◌, ltb, leb, if◌then◌else◌, is_some, find, keep, count, take,
}
use proj_track_official.Prelude.Text.{Text, text_eq, is_empty, trim, falsy, option_eq}
use proj_track_official.Prelude.Table.{update_many, update_one}
use proj_track_official.Mail.Job.{
  Job, JobType, transactional, bulk, type_eq, JobStatus, queued, processing, sent, failed, dead,
  cancelled, paused_limit_reached, is_processing, is_waiting, Provider, FailureReason,
  worker_stale_processing, template_render_failed, unknown_provider_error, rate_limited,
}
use proj_track_official.Mail.Settings.{
  Env, retry_delay_ms, per_run_limit, tx_per_min_keys, bulk_per_min_keys,
  mail_processing_stale_ms_of, mail_processing_warning_ms_of, mail_worker_heartbeat_stale_ms_of,
}
use proj_track_official.Mail.Limit.{Calendar, check_before_send, is_allowed}
use proj_track_official.Mail.Classify.{Classification}

-- `{ lte: now }`, or null
abbrev pub is_due_at : Option ℕ → ℕ → Bool
is_due_at none now = true
is_due_at (some t) now = leb t now

-- `buildDueEmailJobWhere`
abbrev pub is_due : JobType → ℕ → Job → Bool
is_due ty now j =
    not (is_some j.archived_at)
    && type_eq j.job_type ty
    && is_waiting j.status
    && is_due_at j.scheduled_at now

-- `orderBy: [{ scheduledAt: 'asc' }, { createdAt: 'asc' }]`; null comes last.
abbrev pub before : Job → Job → Bool
before a b = earlier a.scheduled_at b.scheduled_at
  where
    earlier : Option ℕ → Option ℕ → Bool
    earlier none none = leb a.created_at b.created_at
    earlier none (some u) = false
    earlier (some t) none = true
    earlier (some t) (some u) = ltb t u || (t == u && leb a.created_at b.created_at)

insert : Job → List Job → List Job
insert j [] = j ∷ []
insert j (k ∷ ks) = let rest = insert j ks in if before j k then j ∷ (k ∷ ks) else k ∷ rest

sort_due : List Job → List Job
unfolding insert
sort_due [] = []
sort_due (j ∷ js) = insert j (sort_due js)

-- The rows that a pass takes: the query, and the filter and slice on its result.
unfoldable pub selected : JobType → ℕ → ℕ → List Job → List Job
unfolding sort_due
selected ty now limit jobs = take limit (
    keep (λ j. ltb j.attempts j.max_attempts)
      (take (limit * 4) (sort_due (keep (is_due ty now) jobs))))

-- The `where` of the claim: the row is still as it was read.
abbrev pub is_claimable : JobType → ℕ → Job → Job → Bool
is_claimable ty now row j =
    text_eq j.id row.id
    && is_due ty now j
    && (j.attempts == row.attempts)
    && (j.max_attempts == row.max_attempts)

abbrev pub claimed : Provider → Text → ℕ → Job → Job → Job
claimed provider worker_id at row j = record j {
  status = processing;
  attempts = row.attempts + 1;
  provider = some provider;
  last_attempt_at = some at;
  locked_at = some at;
  locked_by = some worker_id;
}

-- The claim: the rows afterwards, and whether one was changed.
unfoldable pub claim : Provider → Text → JobType → ℕ → ℕ → Job → List Job → List Job × Bool
claim provider worker_id ty now at row jobs = (
  update_many (is_claimable ty now row) (claimed provider worker_id at row) jobs,
  ltb 0 (count (is_claimable ty now row) jobs),
)

-- What the world answers for one job.
pub data Delivery : Type 0 where
  accepted : Provider → Text → Delivery
  refused : Classification → Delivery

pub record Reply : Type 0 where
  pub suppressed : Bool
  -- `renderMailTemplate` returned
  pub rendered : Bool
  -- the subject and the body are not empty
  pub has_subject : Bool
  pub has_body : Bool
  pub delivery : Delivery
  -- the clock when the outcome is written
  pub at : ℕ

abbrev pub unlocked : JobStatus → Option FailureReason → Option Bool → Option ℕ → Job → Job
unlocked status reason retryable scheduled j = record j {
  status = status;
  retryable_failure = retryable;
  failure_reason = reason;
  scheduled_at = scheduled;
  locked_at = none;
  locked_by = none;
}

-- Suppressed bulk mail: `scheduledAt` stays.
abbrev pub cancel : Job → Job
cancel j = unlocked cancelled none none j.scheduled_at j

abbrev pub bury_unrendered : Job → Job
bury_unrendered = unlocked dead (some template_render_failed) (some false) none

-- `pauseJobForLimit`: the attempt is given back.
abbrev pub pause : Job → Job → Job
pause job j =
    let j' = unlocked paused_limit_reached (some rate_limited) (some true) none j in
    record j' { attempts = job.attempts - 1 }

abbrev pub deliver : Provider → Text → ℕ → Job → Job
deliver provider message_id at j =
    let j' = unlocked sent none none none j in
    record j' { provider = some provider; provider_message_id = some message_id; sent_at = some at }

-- The `catch` of `processClaimedJob`
abbrev pub fail : Classification → ℕ → Job → Job → Job
fail c at job j =
    if c.retryable && ltb job.attempts job.max_attempts
    then unlocked failed (some c.failure_reason) (some c.retryable)
        (some (at + retry_delay_ms job.attempts c.failure_reason)) j
    else unlocked dead (some c.failure_reason) (some c.retryable) none j

-- What an exception of the application itself is classed as.
abbrev pub application_error : Classification
application_error = record { failure_reason = unknown_provider_error; retryable = false }

-- How a claimed job ends, given whether the limits allow a send.
pub data Ending : Type 0 where
  was_cancelled unrendered over_limit incomplete : Ending
  delivered : Provider → Text → Ending
  undelivered : Classification → Ending

unfoldable pub ending : Job → Bool → Reply → Ending
ending job allowed r =
    if type_eq job.job_type bulk && r.suppressed
    then was_cancelled
    else if not r.rendered
    then unrendered
    else if not allowed
    then over_limit
    else if not r.has_subject || not r.has_body
    then incomplete
    else elim r.delivery [ accepted p m ↦ delivered p m | refused c ↦ undelivered c ]

-- Was the provider called?
abbrev pub is_send : Ending → Bool
is_send (delivered p m) = true
is_send (undelivered c) = true
is_send _ = false

abbrev pub is_over_limit : Ending → Bool
is_over_limit over_limit = true
is_over_limit _ = false

-- The write that an ending makes to the row of the job, `job` being the row as it was claimed.
unfoldable pub settle : Job → ℕ → Ending → Job → Job
settle job at was_cancelled = cancel
settle job at unrendered = bury_unrendered
settle job at over_limit = pause job
settle job at incomplete = fail application_error at job
settle job at (delivered p m) = deliver p m at
settle job at (undelivered c) = fail c at job

-- `pausePendingBulkJobs`: the rows that a reached limit pauses with the job.
abbrev pub is_companion : Job → Job → Bool
is_companion job j =
    not (is_some j.archived_at)
    && not (text_eq j.id job.id)
    && type_eq j.job_type bulk
    && is_waiting j.status
    && same_batch job.batch_key job.campaign_id
  where
    truthy : Option Text → Bool
    truthy none = false
    truthy (some t) = not (is_empty t)

    same_batch : Option Text → Option Text → Bool
    same_batch batch campaign =
        if truthy batch
        then option_eq j.batch_key batch
        else if truthy campaign
        then option_eq j.campaign_id campaign
        else false

abbrev pub pause_companion : Job → Job
pause_companion = unlocked paused_limit_reached (some rate_limited) (some true) none

-- `processClaimedJob`: `job` is the row as read after the claim.
unfoldable pub process_claimed : Job → Bool → Reply → List Job → List Job
unfolding settle ending
process_claimed job allowed r jobs =
    let e = ending job allowed r in
    let written = update_one (λ j. text_eq j.id job.id) (settle job r.at e) jobs in
    if is_over_limit e && type_eq job.job_type bulk
    then update_many (is_companion job) pause_companion written
    else written

-- The worker's surroundings in a pass: its id, the provider in use, and what the world answers for
-- each job.
pub record World : Type 0 where
  pub worker_id : Text
  pub provider : Provider
  pub env : Env
  pub reply : Job → Reply
  -- the clock when a row is claimed
  pub claim_at : Job → ℕ

module _ ⦃calendar : Calendar⦄ where
  -- One row of the loop of `processQueueType`: the rows, and whether a job was processed.
  unfoldable pub process_row : World → JobType → ℕ → Job → List Job → List Job × Bool
  unfolding claim process_claimed
  process_row w ty now row jobs =
      let (jobs', won) = claim w.provider w.worker_id ty now (w.claim_at row) row jobs in
      if won
      then elim (find (λ j. text_eq j.id row.id) jobs') [
        | none ↦ (jobs', false)
        | some job ↦
            let r = w.reply job in
            let allowed = is_allowed (check_before_send w.provider job.job_type w.env r.at jobs') in
            (process_claimed job allowed r jobs', true)
      ]
      else (jobs', false)

  -- The loop
  unfoldable pub process_rows : World → JobType → ℕ → List Job → List Job → List Job × ℕ
  unfolding process_row
  process_rows w ty now [] jobs = (jobs, 0)
  process_rows w ty now (row ∷ rows) jobs =
      let (jobs', worked) = process_row w ty now row jobs in
      let (jobs'', n) = process_rows w ty now rows jobs' in (jobs'', if worked then suc n else n)

  -- `processQueueType`
  unfoldable pub process_queue_type : World → JobType → ℕ → ℕ → List Job → List Job × ℕ
  unfolding process_rows selected
  process_queue_type w ty limit now jobs = process_rows w ty now (selected ty now limit jobs) jobs

-- The heartbeat row, if any: its time.
abbrev pub is_stale : Env → ℕ → Option ℕ → Bool
is_stale env now none = true
is_stale env now (some t) = ltb (t + mail_worker_heartbeat_stale_ms_of env) now

-- `lockedAt: { lt: now - ms }`
abbrev pub locked_before : Option ℕ → ℕ → ℕ → Bool
locked_before none ms now = false
locked_before (some t) ms now = ltb (t + ms) now

-- The rows of `recoverStaleLocks`
unfoldable pub is_abandoned : Env → ℕ → Option ℕ → Job → Bool
is_abandoned env now heartbeat j =
    not (is_some j.archived_at)
    && is_processing j.status
    && (locked_before j.locked_at (mail_processing_stale_ms_of env) now
        || (is_stale env now heartbeat
            && locked_before j.locked_at (mail_processing_warning_ms_of env) now))

abbrev pub recovered : Job → Job
recovered j =
    if ltb j.attempts j.max_attempts
    then unlocked queued (some worker_stale_processing) (some true) none j
    else unlocked dead (some worker_stale_processing) (some true) none j

-- `recoverStaleLocks`, with nothing between its query and its updates
unfoldable pub recover_stale_locks : Env → ℕ → Option ℕ → List Job → List Job
unfolding is_abandoned
recover_stale_locks env now heartbeat jobs =
    update_many (is_abandoned env now heartbeat) recovered jobs

-- `processDueJobs`, less the heartbeat writes; the two queues read the clock on their own.
module _ ⦃calendar : Calendar⦄ where
  unfoldable pub process_due_jobs : World → ℕ → ℕ → ℕ → Option ℕ → List Job → List Job × ℕ
  unfolding process_queue_type recover_stale_locks
  process_due_jobs w now now_tx now_bulk heartbeat jobs =
      let jobs₁ = recover_stale_locks w.env now heartbeat jobs in
      let (jobs₂, n) =
        process_queue_type w transactional (per_run_limit tx_per_min_keys 60 w.env) now_tx jobs₁ in
      let (jobs₃, m) =
        process_queue_type w bulk (per_run_limit bulk_per_min_keys 20 w.env) now_bulk jobs₂ in
      (jobs₃, n + m)
