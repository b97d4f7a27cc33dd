-- ===== src/Mail/Queue.antt =====
-- Queueing a mail job: `createJob` of backend/src/mail/mail.service.ts. The payload and the subject of a
-- message are left out, and so are their validation and the check that the transport is ready.
use proj_track_official.Prelude.{
  ℕ, Bool, true, false, ◌&&◌, ◌||◌, not, Option, none, some, List, [], ◌∷◌, ◌++◌, find, ltb,
  if◌then◌else◌, or_else,
}
use proj_track_official.Prelude.Text.{Text, text_eq, is_empty, trim, CaseTable, to_lower, option_eq}
use proj_track_official.Prelude.Table.{update_one}
use proj_track_official.Prelude.Outcome.{bad_request, Handler, ◌>>=◌, ◌>>◌, require, return}
use proj_track_official.Mail.Job.{
  Job, JobType, JobStatus, queued, dead, cancelled, Provider, is_processing,
}
pub mod Manage
pub mod Idempotence
mod Tests

-- A row with its idempotency columns.
pub record Entry : Type 0 where
  pub job : Job
  pub key : Option Text
  pub until : Option ℕ

abbrev pub Queue : Type 0
Queue = List Entry

-- `normalizeEmail`
abbrev pub normalize_email : ⦃t : CaseTable⦄ → Text → Text
normalize_email value = to_lower (trim value)

-- `value?.trim() || null`
abbrev pub trimmed_or_null : Option Text → Option Text
trimmed_or_null none = none
trimmed_or_null (some s) = if is_empty (trim s) then none else some (trim s)

-- What `createJob` is given.
pub record Input : Type 0 where
  pub job_type : JobType
  pub user_email : Text
  pub campaign_id : Option Text
  pub batch_key : Option Text
  pub max_attempts : Option ℕ
  pub scheduled_at : Option ℕ
  pub key : Option Text
  pub until : Option ℕ

-- The columns of a job that is queued anew, on top of `old`.
abbrev pub requeued : ⦃t : CaseTable⦄ → Provider → ℕ → Input → Job → Job
requeued provider default_attempts input old = record old {
  job_type = input.job_type;
  status = queued;
  user_email = normalize_email input.user_email;
  attempts = 0;
  max_attempts = or_else input.max_attempts default_attempts;
  scheduled_at = input.scheduled_at;
  campaign_id = trimmed_or_null input.campaign_id;
  batch_key = trimmed_or_null input.batch_key;
  provider = some provider;
  last_attempt_at = none;
  failure_reason = none;
  retryable_failure = none;
  provider_message_id = none;
  sent_at = none;
  locked_at = none;
  locked_by = none;
  archived_at = none;
}

abbrev pub new_job : ⦃t : CaseTable⦄ → Text → Provider → ℕ → Input → ℕ → Job
new_job fresh provider default_attempts input now = record {
  id = fresh;
  job_type = input.job_type;
  status = queued;
  user_email = normalize_email input.user_email;
  campaign_id = trimmed_or_null input.campaign_id;
  batch_key = trimmed_or_null input.batch_key;
  attempts = 0;
  max_attempts = or_else input.max_attempts default_attempts;
  retryable_failure = none;
  failure_reason = none;
  provider = some provider;
  provider_message_id = none;
  last_attempt_at = none;
  scheduled_at = input.scheduled_at;
  sent_at = none;
  locked_at = none;
  locked_by = none;
  archived_at = none;
  created_at = now;
}

-- The statuses that an idempotency window covers.
abbrev pub is_covered : JobStatus → Bool
is_covered dead = false
is_covered cancelled = false
is_covered _ = true

abbrev pub is_open_window : ℕ → Option ℕ → Bool
is_open_window now none = false
is_open_window now (some until) = ltb now until

-- `isReusableWindow || existing.status === PROCESSING`
abbrev pub is_reusable : ℕ → Entry → Bool
is_reusable now e =
    (is_open_window now e.until && is_covered e.job.status) || is_processing e.job.status

abbrev pub has_key : Text → Entry → Bool
has_key key e = option_eq e.key (some key)

abbrev pub has_id : Text → Entry → Bool
has_id id e = text_eq e.job.id id

module _ ⦃t : CaseTable⦄ (provider : Provider) (default_attempts : ℕ) where
  -- The `data` of the update of `createJob`.
  abbrev pub refreshed : Input → Entry → Entry
  refreshed input e = record e {
    job = requeued provider default_attempts input e.job;
    until = input.until;
  }

  -- The `emailJob.create` of `createJob`
  abbrev pub insert_job : Text → Input → ℕ → Option Text → Handler Queue Entry
  insert_job fresh input now key q =
      let e : Entry = record {
        job = new_job fresh provider default_attempts input now;
        key = key;
        until = input.until;
      } in
      return e (q ++ e ∷ [])

  -- `createJob` for a key that a row has already
  unfoldable pub reuse_or_refresh : Input → ℕ → Entry → Handler Queue Entry
  reuse_or_refresh input now e q =
      if is_reusable now e
      then return e q
      else return (refreshed input e) (update_one (has_id e.job.id) (refreshed input) q)

  -- `createJob` for a key
  unfoldable pub create_for_key : Text → Input → ℕ → Text → Option Entry → Handler Queue Entry
  unfolding reuse_or_refresh
  create_for_key fresh input now key none = insert_job fresh input now (some key)
  create_for_key fresh input now key (some e) = reuse_or_refresh input now e

  -- `createJob` after the checks
  unfoldable pub create_checked : Text → Input → ℕ → Option Text → Handler Queue Entry
  unfolding create_for_key
  create_checked fresh input now none q = insert_job fresh input now none q
  create_checked fresh input now (some key) q =
      create_for_key fresh input now key (find (has_key key) q) q

  -- `createJob`
  unfoldable pub create_job : Text → Input → ℕ → Handler Queue Entry
  unfolding create_checked
  create_job fresh input now = do
    require (not (is_empty (normalize_email input.user_email)))
        (bad_request "Missing email recipient.")
    create_checked fresh input now (trimmed_or_null input.key)
