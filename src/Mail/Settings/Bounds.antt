-- ===== src/Mail/Settings/Bounds.antt =====
-- The settings are never zero, and the delays before a retry.
use proj_track_official.Prelude.{
  ℕ, zero, suc, ◌≤◌, ◌<◌, ◌*◌, ◌-◌, ◌≡◌, Option, none, some, List, [], ◌∷◌, arith, inl, inr,
  Option-cases,
}
use proj_track_official.Mail.Job.{FailureReason, sender_not_confirmed}
use proj_track_official.Mail.Settings.{
  Env, Variable, positive, env_number, per_run_limit, mail_worker_poll_ms_of,
  mail_worker_heartbeat_stale_ms_of, retry_delay_ms, mail_worker_heartbeat_stale_ms,
}

positive-pos : (o : Option ℕ) (n : ℕ) → positive o ≡ some n → 0 < n
unfolding positive
positive-pos none n h = ground arith
positive-pos (some m) n h = ground arith

pub env_number-pos :
    (keys : List Variable) (fallback : ℕ) (env : Env)
    → 0 < fallback
    → 0 < env_number keys fallback env
unfolding env_number
env_number-pos [] fallback env h = h
env_number-pos (key ∷ keys) fallback env h = elim (Option-cases (positive (env key))) [
  | inl e ↦ rw (e, env_number) (env_number-pos keys fallback env h)
  | inr (n, e) ↦ rw (e, env_number) (positive-pos (env key) n e)
]

-- A pass takes at least one job of each kind, whatever the settings are.
pub per_run_limit-pos :
    (keys : List Variable) (fallback : ℕ) (env : Env) → 1 ≤ per_run_limit keys fallback env
unfolding per_run_limit
per_run_limit-pos keys fallback env = omega arith

-- Without a setting of its own, a heartbeat counts as stale only after two missed polls.
pub heartbeat-polls :
    (env : Env)
    → env mail_worker_heartbeat_stale_ms ≡ none
    → mail_worker_poll_ms_of env * 2 < mail_worker_heartbeat_stale_ms_of env
unfolding mail_worker_heartbeat_stale_ms_of
heartbeat-polls env h =
    rw (h, mail_worker_heartbeat_stale_ms_of, env_number, positive) (omega arith)

pred_suc : (n : ℕ) → suc n - 1 ≡ n
pred_suc n = omega arith

-- The delay before a retry lies between one minute and four hours and never shrinks from one attempt
-- to the next, whatever the reason.
pub retry_delay_ms_bounds :
    (attempt : ℕ) (reason : FailureReason)
    → (60000 ≤ retry_delay_ms attempt reason)
      × (retry_delay_ms attempt reason ≤ 14400000)
      × (retry_delay_ms attempt reason ≤ retry_delay_ms (suc attempt) reason)
unfolding retry_delay_ms
retry_delay_ms_bounds zero sender_not_confirmed = omega arith
retry_delay_ms_bounds zero _ = omega arith
retry_delay_ms_bounds (suc zero) sender_not_confirmed = omega arith
retry_delay_ms_bounds (suc zero) _ = omega arith
retry_delay_ms_bounds (suc (suc zero)) sender_not_confirmed = omega arith
retry_delay_ms_bounds (suc (suc zero)) _ = omega arith
retry_delay_ms_bounds (suc (suc (suc zero))) sender_not_confirmed = omega arith
retry_delay_ms_bounds (suc (suc (suc zero))) _ = omega arith
retry_delay_ms_bounds (suc (suc (suc (suc n)))) sender_not_confirmed =
    rw (pred_suc (suc (suc (suc n))), retry_delay_ms)
      (rw (pred_suc (suc (suc (suc (suc n)))), retry_delay_ms) (omega arith))
retry_delay_ms_bounds (suc (suc (suc (suc n)))) _ =
    rw (pred_suc (suc (suc (suc n))), retry_delay_ms)
      (rw (pred_suc (suc (suc (suc (suc n)))), retry_delay_ms) (omega arith))
