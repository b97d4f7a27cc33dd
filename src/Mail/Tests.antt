-- ===== src/Mail/Tests.antt =====
-- The laws of the limits, the settings and the classification at concrete jobs and errors.
use proj_track_official.Prelude.{◌≡◌, ◌<◌, ◌↔◌, ◌⊎◌, refl, true, false, none, some, [], ◌∷◌, count}
use proj_track_official.Prelude.Text.{codes, ascii_only, trim, to_lower}
use proj_track_official.Mail.Job.{
  Job, bulk, sent, mailrelay, provider_eq, auth_failed, unknown_provider_error, provider_temporary,
}
use proj_track_official.Mail.Settings.{Env}
use proj_track_official.Mail.Limit.{
  Calendar, check_before_send, is_allowed, counts, counts_last_minute, monthly_limit_of,
  daily_limit_of,
}
use proj_track_official.Mail.Limit.Laws.{per_minute_limit_of, check_before_send_iff}
use proj_track_official.Mail.Classify.{
  is_sender_not_confirmed_message, is_account_restricted_message, is_auth_failure_message,
  is_rate_limited_message, is_network_failure_message, is_invalid_recipient_message,
  is_temporary_provider_message, classed, ProviderError, classify_provider_error,
}

abbrev unset : Env
unset v = none

abbrev whole_days : Calendar
whole_days = record { start_of_day = λ t. 0; start_of_month = λ t. 0 }

abbrev sent_job : Job
sent_job = record {
  id = codes "j1";
  job_type = bulk;
  status = sent;
  user_email = codes "ann@x.ph";
  campaign_id = none;
  batch_key = none;
  attempts = 1;
  max_attempts = 3;
  retryable_failure = none;
  failure_reason = none;
  provider = some mailrelay;
  provider_message_id = none;
  last_attempt_at = none;
  scheduled_at = none;
  sent_at = some 70000;
  locked_at = none;
  locked_by = none;
  archived_at = none;
  created_at = 0;
}

check_before_send_iff_example :
    (is_allowed (check_before_send ⦃c = whole_days⦄ mailrelay bulk unset 100000 (sent_job ∷ []))
      ≡ true)
    ↔ ((count (counts mailrelay 0) (sent_job ∷ []) < monthly_limit_of mailrelay unset)
        × (count (counts mailrelay 0) (sent_job ∷ []) < daily_limit_of mailrelay unset)
        × ((provider_eq mailrelay mailrelay ≡ false)
            ⊎ (count (counts_last_minute mailrelay bulk 100000) (sent_job ∷ [])
                < per_minute_limit_of bulk unset)))
check_before_send_iff_example =
    check_before_send_iff ⦃c = whole_days⦄ mailrelay bulk unset 100000 (sent_job ∷ []) refl

abbrev timed_out : ProviderError
timed_out = record { is_application = false; status_code = some 503; message = codes "try later" }

abbrev strange : ProviderError
strange = record { is_application = true; status_code = none; message = codes "empty body" }

abbrev refused : ProviderError
refused = record { is_application = false; status_code = some 401; message = codes "no" }

timed_out_class :
    classify_provider_error ⦃t = ascii_only⦄ timed_out ≡ classed provider_temporary true
unfolding classify_provider_error is_sender_not_confirmed_message is_account_restricted_message
    is_auth_failure_message is_rate_limited_message is_network_failure_message
    is_invalid_recipient_message is_temporary_provider_message trim to_lower
timed_out_class = refl

refused_class : classify_provider_error ⦃t = ascii_only⦄ refused ≡ classed auth_failed false
unfolding classify_provider_error is_sender_not_confirmed_message is_account_restricted_message
    is_auth_failure_message trim to_lower
refused_class = refl

strange_class :
    classify_provider_error ⦃t = ascii_only⦄ strange ≡ classed unknown_provider_error false
unfolding classify_provider_error
strange_class = refl
