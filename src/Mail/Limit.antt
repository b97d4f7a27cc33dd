-- ===== src/Mail/Limit.antt =====
-- The send limits of backend/src/mail/mail-limit.service.ts. The starts of the local day and month
-- are the runtime's calendar, the instance `Calendar`.
pub mod Laws
use Prim.Native.String.{String}
use proj_track_official.Prelude.{
  ℕ, ◌+◌, ◌*◌, Bool, true, false, ◌&&◌, ◌||◌, Option, none, some, List, [], ◌∷◌, leb, ltb,
  if◌then◌else◌, count,
}
use proj_track_official.Mail.Job.{
  Job, JobType, transactional, bulk, type_eq, Provider, sender, mailrelay, provider_eq, is_sent,
  FailureReason, rate_limited,
}
use proj_track_official.Mail.Settings.{
  Env, env_number, mailrelay_monthly_limit, mailrelay_daily_safety_limit, sender_monthly_limit,
  sender_daily_safety_limit, tx_per_min_keys, bulk_per_min_keys,
}

pub record Calendar : Type 0 where
  pub start_of_day : ℕ → ℕ
  pub start_of_month : ℕ → ℕ

-- `MailLimitUsage`
pub record Usage : Type 0 where
  pub enabled : Bool
  pub monthly_limit : Option ℕ
  pub daily_safety_limit : Option ℕ
  pub transactional_per_minute_limit : Option ℕ
  pub bulk_per_minute_limit : Option ℕ
  pub monthly_sent : ℕ
  pub daily_sent : ℕ
  pub transactional_sent_last_minute : ℕ
  pub bulk_sent_last_minute : ℕ

-- `MailLimitCheckResult`, with the case in place of its texts
pub data Verdict : Type 0 where
  unlimited allowed : Verdict
  monthly_reached daily_reached transactional_reached bulk_reached : Verdict

abbrev pub is_allowed : Verdict → Bool
is_allowed unlimited = true
is_allowed allowed = true
is_allowed _ = false

-- The `reason` of a refusal.
abbrev pub reason : FailureReason
reason = rate_limited

abbrev pub is_limited : Provider → Bool
is_limited p = provider_eq p mailrelay || provider_eq p sender

-- `sentAt: { gte: from }`
abbrev pub sent_since : ℕ → Option ℕ → Bool
sent_since from none = false
sent_since from (some t) = leb from t

abbrev pub is_provider : Provider → Option Provider → Bool
is_provider p none = false
is_provider p (some q) = provider_eq q p

-- The rows that a limit counts, from a time on.
abbrev pub counts : Provider → ℕ → Job → Bool
counts p from j = is_provider p j.provider && is_sent j.status && sent_since from j.sent_at

-- Rows of one type of the last minute: `lastMinute` is `now - 60_000`, and may lie before time 0.
abbrev pub counts_last_minute : Provider → JobType → ℕ → Job → Bool
counts_last_minute p ty now j =
    is_provider p j.provider && is_sent j.status && type_eq j.job_type ty && within j.sent_at
  where
    within : Option ℕ → Bool
    within none = false
    within (some t) = leb now (t + 60000)

-- The limits of a provider.
pub monthly_limit_of : Provider → Env → ℕ
monthly_limit_of p env =
    if provider_eq p mailrelay
    then env_number (mailrelay_monthly_limit ∷ []) 80000 env
    else env_number (sender_monthly_limit ∷ []) 15000 env

pub daily_limit_of : Provider → Env → ℕ
daily_limit_of p env =
    if provider_eq p mailrelay
    then env_number (mailrelay_daily_safety_limit ∷ []) 2000 env
    else env_number (sender_daily_safety_limit ∷ []) 1000 env

-- `getUsage`
unfoldable pub get_usage : ⦃c : Calendar⦄ → Provider → Env → ℕ → List Job → Usage
unfolding monthly_limit_of daily_limit_of
get_usage ⦃c⦄ p env now jobs =
    if is_limited p
    then record {
      enabled = true;
      monthly_limit = some (monthly_limit_of p env);
      daily_safety_limit = some (daily_limit_of p env);
      transactional_per_minute_limit =
          if provider_eq p mailrelay then some (env_number tx_per_min_keys 60 env) else none;
      bulk_per_minute_limit =
          if provider_eq p mailrelay then some (env_number bulk_per_min_keys 20 env) else none;
      monthly_sent = count (counts p (c.start_of_month now)) jobs;
      daily_sent = count (counts p (c.start_of_day now)) jobs;
      transactional_sent_last_minute = count (counts_last_minute p transactional now) jobs;
      bulk_sent_last_minute = count (counts_last_minute p bulk now) jobs;
    }
    else record {
      enabled = false;
      monthly_limit = none;
      daily_safety_limit = none;
      transactional_per_minute_limit = none;
      bulk_per_minute_limit = none;
      monthly_sent = 0;
      daily_sent = 0;
      transactional_sent_last_minute = 0;
      bulk_sent_last_minute = 0;
    }

-- `limit !== null && sent >= limit`
abbrev pub reached : Option ℕ → ℕ → Bool
reached none sent_ = false
reached (some limit) sent_ = leb limit sent_

verdict : JobType → Usage → Verdict
verdict ty u =
    if reached u.monthly_limit u.monthly_sent
    then monthly_reached
    else if reached u.daily_safety_limit u.daily_sent
    then daily_reached
    else if type_eq ty transactional
        && reached u.transactional_per_minute_limit u.transactional_sent_last_minute
    then transactional_reached
    else if type_eq ty bulk && reached u.bulk_per_minute_limit u.bulk_sent_last_minute
    then bulk_reached
    else allowed

-- `checkBeforeSend`
unfoldable pub check_before_send :
    ⦃c : Calendar⦄ → Provider → JobType → Env → ℕ → List Job → Verdict
unfolding verdict get_usage
check_before_send p ty env now jobs =
    if is_limited p then verdict ty (get_usage p env now jobs) else unlimited
