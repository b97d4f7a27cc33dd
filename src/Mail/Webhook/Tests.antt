-- ===== src/Mail/Webhook/Tests.antt =====
-- A bounce whose suppression the database refuses, and which the provider sends again.
use proj_track_official.Prelude.{◌≡◌, refl, true, false, some, []}
use proj_track_official.Prelude.Text.{codes, text_eq}
use proj_track_official.Prelude.Outcome.{done, final}
use proj_track_official.Mail.Webhook.{Event, Store, Faults, handle_webhook}
use proj_track_official.Mail.Webhook.Delivery.{handle_webhook-duplicate}

abbrev event : Event
event = record {
  id = codes "e1";
  event_type = codes "email.bounced";
  message_id = some (codes "m");
  email = some (codes "ann@x.ph");
  at = 7;
}

abbrev empty : Store
empty = record { events = []; suppressions = []; rows = []; unsubscribes = [] }

abbrev down : Faults
down = record {
  event_create_fails = false;
  suppression_fails = true;
  job_update_fails = false;
  event_update_fails = false;
}

abbrev up : Faults
up = record {
  event_create_fails = false;
  suppression_fails = false;
  job_update_fails = false;
  event_update_fails = false;
}

-- The suppression is lost.
lost :
    (final (handle_webhook up event 9 (final (handle_webhook down event 8 empty)))).suppressions
    ≡ []
unfolding handle_webhook text_eq
lost = refl

handle_webhook-duplicate_example :
    handle_webhook up event 9 (final (handle_webhook down event 8 empty))
    ≡ done true (final (handle_webhook down event 8 empty))
handle_webhook-duplicate_example = handle_webhook-duplicate down up event 8 9 empty refl refl refl
