-- ===== src/Mail/Queue/Tests.antt =====
-- Queueing twice, and a sent job.
use proj_track_official.Prelude.{◌≡◌, refl, true, false, none, some, [], ◌∷◌, find, arith}
use proj_track_official.Prelude.Text.{codes, text_eq, ascii_only, trim, to_lower}
use proj_track_official.Prelude.Outcome.{done, final, succeeded}
use proj_track_official.Mail.Job.{transactional, sent, stub}
use proj_track_official.Mail.Queue.{has_id, Entry, Input, new_job, create_job}
use proj_track_official.Mail.Queue.Manage.{retry_job, cancel_job}
use proj_track_official.Mail.Queue.Idempotence.{create_job-idempotent, sent_job-unchanged}
use proj_track_official.Mail.Bulk.{retry_jobs, resume_paused_jobs}
use proj_track_official.Mail.Bulk.Spared.{retry_jobs-spares_sent}

abbrev input : Input
input = record {
  job_type = transactional;
  user_email = codes "Ann@x.ph";
  campaign_id = none;
  batch_key = none;
  max_attempts = none;
  scheduled_at = none;
  key = some (codes "k ");
  until = some 100;
}

abbrev entry : Entry
entry = record {
  job = new_job ⦃t = ascii_only⦄ (codes "j") stub 5 input 1;
  key = some (codes "k");
  until = some 100;
}

create_job-idempotent_example :
    create_job ⦃t = ascii_only⦄ stub 5 (codes "j2") input 2 (entry ∷ []) ≡ done entry (entry ∷ [])
unfolding text_eq trim to_lower create_job
create_job-idempotent_example =
    create_job-idempotent ⦃t = ascii_only⦄ stub 5 (codes "j") (codes "j2") input input 1 2 entry []
      (entry ∷ []) (codes "k") (λ x h. absurd (ground arith)) refl refl refl refl refl

abbrev sent_entry : Entry
sent_entry = record entry { job = record entry.job { status = sent } }

sent_job-unchanged_example :
    (succeeded (cancel_job (codes "j") (sent_entry ∷ [])) ≡ false)
    × (final (cancel_job (codes "j") (sent_entry ∷ [])) ≡ sent_entry ∷ [])
    × (succeeded (retry_job stub (codes "j") true (sent_entry ∷ [])) ≡ false)
    × (final (retry_job stub (codes "j") true (sent_entry ∷ [])) ≡ sent_entry ∷ [])
unfolding text_eq
sent_job-unchanged_example =
    sent_job-unchanged stub (codes "j") true sent_entry (sent_entry ∷ []) refl refl

retry_jobs-spares_sent_example :
    find (has_id (codes "j")) (final (retry_jobs stub (codes "j" ∷ []) true (sent_entry ∷ [])))
    ≡ find (has_id (codes "j")) (sent_entry ∷ [])
retry_jobs-spares_sent_example =
    retry_jobs-spares_sent stub (codes "j" ∷ []) true (codes "j") (sent_entry ∷ [])
      ((λ h. refl), tt)

-- One job is sent, the other does not exist.
retry_jobs_answers :
    retry_jobs stub (codes "j" ∷ codes " k" ∷ codes "j" ∷ []) true (sent_entry ∷ [])
    ≡ done
        (record { retried_ids = []; blocked_ids = codes "j" ∷ []; missing_ids = codes "k" ∷ [] })
        (sent_entry ∷ [])
unfolding retry_jobs text_eq trim
retry_jobs_answers = refl

resume_paused_jobs_keeps_sent :
    resume_paused_jobs stub none (some (codes "b")) (sent_entry ∷ []) ≡ done 0 (sent_entry ∷ [])
unfolding resume_paused_jobs
resume_paused_jobs_keeps_sent = refl
