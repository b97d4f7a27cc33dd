-- ===== src/Mail/Limit/Laws.antt =====
-- What a passed check promises of the counts.
use proj_track_official.Prelude.{ℕ, ◌<◌, ◌≡◌, true, List, count, arith, ◌↔◌, ◌⊎◌, false}
use proj_track_official.Mail.Job.{
  Job, JobType, transactional, bulk, Provider, mailrelay, provider_eq,
}
use proj_track_official.Mail.Settings.{Env, env_number, tx_per_min_keys, bulk_per_min_keys}
use proj_track_official.Mail.Limit.{
  Calendar, is_allowed, is_limited, counts, counts_last_minute, monthly_limit_of, daily_limit_of,
  check_before_send,
}

-- The last minute's limit of a type.
abbrev pub per_minute_limit_of : JobType → Env → ℕ
per_minute_limit_of transactional env = env_number tx_per_min_keys 60 env
per_minute_limit_of bulk env = env_number bulk_per_min_keys 20 env

-- For a provider with limits, a send is allowed exactly when the month's and the day's counts are
-- below their limits and the provider is not Mailrelay or the last minute's count of the type is below
-- its limit too.
pub check_before_send_iff :
    ⦃c : Calendar⦄
    → (p : Provider) (ty : JobType) (env : Env) (now : ℕ) (jobs : List Job) → is_limited p ≡ true
    → (is_allowed (check_before_send p ty env now jobs) ≡ true) ↔ (
        (count (counts p (c.start_of_month now)) jobs < monthly_limit_of p env)
        × (count (counts p (c.start_of_day now)) jobs < daily_limit_of p env)
        × ((provider_eq p mailrelay ≡ false)
            ⊎ (count (counts_last_minute p ty now) jobs < per_minute_limit_of ty env)))
unfolding check_before_send
check_before_send_iff mailrelay transactional env now jobs h = ground arith
check_before_send_iff mailrelay bulk env now jobs h = ground arith
check_before_send_iff _ _ env now jobs h = ground arith
