-- ===== src/Mail/Job.antt =====
-- A row of the table `emailJob` (backend/prisma/schema.prisma), with the enumerations of
-- backend/src/prisma/prisma-compat.ts and backend/src/common/constants/mail.constants.ts. The
-- texts of `lastError` and the message's own content are left out.
use proj_track_official.Prelude.{ℕ, Bool, true, false, Option}
use proj_track_official.Prelude.Text.{Text}

pub data JobType : Type 0 where
  transactional bulk : JobType

pub data JobStatus : Type 0 where
  queued processing sent failed dead cancelled paused_limit_reached : JobStatus

-- `MAIL_PROVIDER_NAMES`
pub data Provider : Type 0 where
  stub resend sender mailrelay smtp : Provider

-- The values of `MAIL_FAILURE_REASONS` that the program writes.
pub data FailureReason : Type 0 where
  sender_not_confirmed auth_failed rate_limited provider_temporary : FailureReason
  provider_rejected invalid_recipient account_restricted network_error : FailureReason
  unknown_provider_error worker_stale_processing template_render_failed : FailureReason

pub record Job : Type 0 where
  pub id : Text
  pub job_type : JobType
  pub status : JobStatus
  pub user_email : Text
  pub campaign_id : Option Text
  pub batch_key : Option Text
  pub attempts : ℕ
  pub max_attempts : ℕ
  pub retryable_failure : Option Bool
  pub failure_reason : Option FailureReason
  pub provider : Option Provider
  pub provider_message_id : Option Text
  pub last_attempt_at : Option ℕ
  pub scheduled_at : Option ℕ
  pub sent_at : Option ℕ
  pub locked_at : Option ℕ
  pub locked_by : Option Text
  pub archived_at : Option ℕ
  pub created_at : ℕ

abbrev pub type_eq : JobType → JobType → Bool
type_eq transactional transactional = true
type_eq bulk bulk = true
type_eq _ _ = false

abbrev pub provider_eq : Provider → Provider → Bool
provider_eq stub stub = true
provider_eq resend resend = true
provider_eq sender sender = true
provider_eq mailrelay mailrelay = true
provider_eq smtp smtp = true
provider_eq _ _ = false

abbrev pub is_sent : JobStatus → Bool
is_sent sent = true
is_sent _ = false

abbrev pub is_processing : JobStatus → Bool
is_processing processing = true
is_processing _ = false

-- `status: { in: [QUEUED, FAILED] }`
abbrev pub is_waiting : JobStatus → Bool
is_waiting queued = true
is_waiting failed = true
is_waiting _ = false
