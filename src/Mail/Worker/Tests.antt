-- ===== src/Mail/Worker/Tests.antt =====
-- The laws of the worker at a concrete queue.
use proj_track_official.Prelude.{
  find, some, ℕ, ◌+◌, ◌≤◌, ◌≡◌, refl, true, false, none, [], ◌∷◌, All, arith,
}
use proj_track_official.Prelude.Text.{codes, text_eq}
use proj_track_official.Mail.Job.{Job, bulk, queued, mailrelay, rate_limited}
use proj_track_official.Mail.Settings.{Env}
use proj_track_official.Mail.Limit.{Calendar}
use proj_track_official.Mail.Classify.{classed}
use proj_track_official.Mail.Worker.{
  over_limit, undelivered, Reply, refused, World, is_claimable, claimed, claim, selected, settle,
  process_due_jobs,
}
use proj_track_official.Mail.Worker.Race.{HasUniqueIds, settle-refuses_stale_claim, claim_race}
use proj_track_official.Mail.Worker.Keeps.{IsSound, process_due_jobs-IsSound}
use proj_track_official.Mail.Worker.Life.{enqueued, processed, calls-le-max_attempts}

abbrev job : Job
job = record {
  id = codes "j1";
  job_type = bulk;
  status = queued;
  user_email = codes "ann@x.ph";
  campaign_id = none;
  batch_key = none;
  attempts = 0;
  max_attempts = 3;
  retryable_failure = none;
  failure_reason = none;
  provider = none;
  provider_message_id = none;
  last_attempt_at = none;
  scheduled_at = none;
  sent_at = none;
  locked_at = none;
  locked_by = none;
  archived_at = none;
  created_at = 0;
}

abbrev unset : Env
unset v = none

abbrev whole_days : Calendar
whole_days = record { start_of_day = λ t. 0; start_of_month = λ t. 0 }

abbrev busy : Reply
busy = record {
  suppressed = false;
  rendered = true;
  has_subject = true;
  has_body = true;
  delivery = refused (classed rate_limited true);
  at = 30;
}

abbrev world : World
world = record {
  worker_id = codes "w1";
  provider = mailrelay;
  env = unset;
  reply = λ j. busy;
  claim_at = λ j. 20;
}

job-IsSound : All IsSound (job ∷ [])
job-IsSound = (
  record { within_budget = omega arith; lock_fits = refl; can_retry = refl; retry_set = refl },
  tt,
)

process_due_jobs-IsSound_example :
    All IsSound ((process_due_jobs ⦃calendar = whole_days⦄ world 10 11 12 none (job ∷ [])).0)
process_due_jobs-IsSound_example =
    process_due_jobs-IsSound ⦃calendar = whole_days⦄ world 10 11 12 none (job ∷ []) job-IsSound

job_claimable : (now : ℕ) → is_claimable bulk now job job ≡ true
unfolding text_eq
job_claimable now = refl

abbrev held : Job
held = claimed mailrelay (codes "w1") 20 job job

settle-refuses_stale_claim_example :
    is_claimable bulk 40 job (settle held 30 over_limit held) ≡ false
settle-refuses_stale_claim_example =
    settle-refuses_stale_claim mailrelay (codes "w1") bulk 10 40 20 30 job job over_limit
      (job_claimable 10)

won : claim mailrelay (codes "w1") bulk 10 20 job (job ∷ []) ≡ (held ∷ [], true)
unfolding claim text_eq
won = refl

job-HasUniqueIds : HasUniqueIds (job ∷ [])
job-HasUniqueIds x = ground arith

claim_race_example : claim mailrelay (codes "w2") bulk 11 21 job (held ∷ []) ≡ (held ∷ [], false)
claim_race_example =
    claim_race mailrelay mailrelay (codes "w1") (codes "w2") bulk 10 11 20 21 job (job ∷ [])
      (held ∷ []) job-HasUniqueIds won

job_selected : find (λ x. text_eq x.id job.id) (selected bulk 10 1 (job ∷ [])) ≡ some job
unfolding selected text_eq
job_selected = refl

calls-le-max_attempts_example :
    0 + 1 ≤ (settle held 30 (undelivered (classed rate_limited true)) held).max_attempts
calls-le-max_attempts_example = calls-le-max_attempts (
    processed (enqueued job refl) mailrelay (codes "w1") bulk 1 10 20 30 (job ∷ []) job
      (undelivered (classed rate_limited true)) job_selected (job_claimable 10))
