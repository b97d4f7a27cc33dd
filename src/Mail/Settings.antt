-- ===== src/Mail/Settings.antt =====
-- Numbers from the environment: backend/src/common/constants/queue.constants.ts and
-- mail-policy.constants.ts. A variable holds a natural number, or none where it is unset or no
-- number; a fraction is not modelled.
pub mod Bounds
use proj_track_official.Prelude.{
  ℕ, zero, suc, ◌+◌, ◌-◌, ◌*◌, ◌/◌, Option, none, some, List, [], ◌∷◌, ltb, leb, if◌then◌else◌,
  Bool, true, false,
}
use Prim.Native.Nat.{max}
use proj_track_official.Mail.Job.{FailureReason, sender_not_confirmed}

-- The variables that the mail queue reads.
pub data Variable : Type 0 where
  mailrelay_monthly_limit mailrelay_daily_safety_limit : Variable
  mailrelay_bulk_per_min mail_bulk_per_min mailrelay_tx_per_min mail_tx_per_min : Variable
  sender_monthly_limit sender_daily_safety_limit : Variable
  mail_worker_poll_ms mail_queue_poll_ms mail_queue_warning_ms mail_queued_warning_ms : Variable
  mail_processing_warning_ms mail_processing_stale_ms mail_stale_lock_ms : Variable
  mail_worker_heartbeat_stale_ms : Variable

abbrev pub Env : Type 0
Env = Variable → Option ℕ

-- The number of a variable, if it is positive.
positive : Option ℕ → Option ℕ
positive none = none
positive (some n) = if ltb 0 n then some n else none

-- `envNumber`
unfoldable pub env_number : List Variable → ℕ → Env → ℕ
unfolding positive
env_number [] fallback env = fallback
env_number (key ∷ keys) fallback env =
    let rest = env_number keys fallback env in
    elim (positive (env key)) [ some n ↦ n | none ↦ rest ]

abbrev pub tx_per_min_keys : List Variable
tx_per_min_keys = mailrelay_tx_per_min ∷ mail_tx_per_min ∷ []

abbrev pub bulk_per_min_keys : List Variable
bulk_per_min_keys = mailrelay_bulk_per_min ∷ mail_bulk_per_min ∷ []

-- `mailWorkerPollMs`
unfoldable pub mail_worker_poll_ms_of : Env → ℕ
unfolding env_number
mail_worker_poll_ms_of env = env_number (mail_worker_poll_ms ∷ mail_queue_poll_ms ∷ []) 15000 env

-- `mailQueuedWarningMs`
unfoldable pub mail_queued_warning_ms_of : Env → ℕ
unfolding env_number
mail_queued_warning_ms_of env =
    env_number (mail_queue_warning_ms ∷ mail_queued_warning_ms ∷ []) (5 * 60 * 1000) env

-- `mailProcessingWarningMs`
unfoldable pub mail_processing_warning_ms_of : Env → ℕ
unfolding env_number
mail_processing_warning_ms_of env = env_number (mail_processing_warning_ms ∷ []) (5 * 60 * 1000) env

-- `mailProcessingStaleMs`
unfoldable pub mail_processing_stale_ms_of : Env → ℕ
unfolding env_number
mail_processing_stale_ms_of env =
    env_number (mail_processing_stale_ms ∷ mail_stale_lock_ms ∷ []) (10 * 60 * 1000) env

-- `mailWorkerHeartbeatStaleMs` with its default poll time
unfoldable pub mail_worker_heartbeat_stale_ms_of : Env → ℕ
unfolding env_number mail_worker_poll_ms_of
mail_worker_heartbeat_stale_ms_of env =
    env_number (mail_worker_heartbeat_stale_ms ∷ [])
      (max (mail_worker_poll_ms_of env * 2 + 30000) 60000) env

-- `perRunLimit` at the keys and defaults of the two queues
unfoldable pub per_run_limit : List Variable → ℕ → Env → ℕ
unfolding env_number
per_run_limit keys fallback env = max 1 (max 1 (env_number keys fallback env) / 4)

-- `MAIL_RETRY_DELAYS_MS`
abbrev pub retry_delays_ms : List ℕ
retry_delays_ms = 60000 ∷ 300000 ∷ 900000 ∷ 3600000 ∷ []

-- `MAIL_SENDER_CONFIRMATION_RETRY_DELAYS_MS`
abbrev pub confirmation_retry_delays_ms : List ℕ
confirmation_retry_delays_ms =
    (30 * 60000) ∷ (60 * 60000) ∷ (2 * 60 * 60000) ∷ (4 * 60 * 60000) ∷ []

-- The delay at an index that is held to the last one.
delay_at : List ℕ → ℕ → ℕ
delay_at [] i = 0
delay_at (d ∷ []) i = d
delay_at (d ∷ (e ∷ ds)) zero = d
delay_at (d ∷ (e ∷ ds)) (suc i) = delay_at (e ∷ ds) i

-- `retryDelayMs`; `attempt - 1` is held to 0 from below.
unfoldable pub retry_delay_ms : ℕ → FailureReason → ℕ
unfolding delay_at
retry_delay_ms attempt sender_not_confirmed = delay_at confirmation_retry_delays_ms (attempt - 1)
retry_delay_ms attempt _ = delay_at retry_delays_ms (attempt - 1)
