-- ===== src/Mail/Webhook.antt =====
-- The events that the mail provider reports: backend/src/mail/mail.webhook.service.ts, with the
-- suppression list of mail.service.ts. The signature check and the reading of the payload are left to
-- the caller, who gives the event; the statements that the database refuses are `Faults`.
use proj_track_official.Prelude.{
  ℕ, Bool, true, false, ◌&&◌, ◌||◌, not, Option, none, some, List, [], ◌∷◌, ◌++◌, any, find,
  if◌then◌else◌, is_some,
}
use proj_track_official.Prelude.Text.{Text, codes, text_eq, is_empty, trim, option_eq, CaseTable}
use proj_track_official.Prelude.Table.{update_one, update_many}
use proj_track_official.Prelude.Outcome.{
  bad_request, not_found, internal, Handler, ◌>>=◌, ◌>>◌, get, modify, require, throw, return, lift,
  done, thrown, Result, ok, err,
}
use proj_track_official.Mail.Job.{Job, dead}
use proj_track_official.Mail.Queue.{normalize_email}
pub mod Delivery
mod Tests

-- `MAIL_SUPPRESSION_REASONS`
pub data Reason : Type 0 where
  bounced complained unsubscribed : Reason
  manual : Text → Reason

pub record Suppression : Type 0 where
  pub email : Text
  pub reason : Reason
  pub suppressed_at : ℕ

-- A row of `emailProviderEvent`.
pub record Event : Type 0 where
  pub id : Text
  pub event_type : Text
  pub message_id : Option Text
  pub email : Option Text
  pub at : ℕ

pub record Logged : Type 0 where
  pub event : Event
  pub processed_at : Option ℕ

-- A row of `emailJob`, with the column that only the events write.
pub record Row : Type 0 where
  pub job : Job
  pub delivered_at : Option ℕ

pub record Unsubscribe : Type 0 where
  pub token : Text
  pub email : Text
  pub unsubscribed_at : Option ℕ

pub record Store : Type 0 where
  pub events : List Logged
  pub suppressions : List Suppression
  pub rows : List Row
  pub unsubscribes : List Unsubscribe

-- The statements that the database refuses, other than by the unique index on the event's id.
pub record Faults : Type 0 where
  pub event_create_fails : Bool
  pub suppression_fails : Bool
  pub job_update_fails : Bool
  pub event_update_fails : Bool

abbrev pub is_for : Text → Suppression → Bool
is_for email x = text_eq x.email email

-- `emailSuppression.upsert`
abbrev pub upsert : Text → Reason → ℕ → List Suppression → List Suppression
upsert email reason now rows =
    if any (is_for email) rows
    then update_one (is_for email) (λ x. record x { reason = reason; suppressed_at = now }) rows
    else rows ++ record { email = email; reason = reason; suppressed_at = now } ∷ []

-- `suppress`
unfoldable pub suppress : ⦃t : CaseTable⦄ → Text → Reason → ℕ → Handler Store (Unit {0})
suppress email reason now = do
  require (not (is_empty (normalize_email email))) (bad_request "Email is required.")
  modify (λ s. record s { suppressions = upsert (normalize_email email) reason now s.suppressions })

-- `isSuppressed`
unfoldable pub is_suppressed : ⦃t : CaseTable⦄ → Text → Store → Bool
is_suppressed email s =
    not (is_empty (normalize_email email)) && any (is_for (normalize_email email)) s.suppressions

-- `unsubscribeByToken`
unfoldable pub unsubscribe_by_token : Text → ℕ → Handler Store Text
unsubscribe_by_token token now = do
  require (not (is_empty (trim token))) (bad_request "Unsubscribe token is required.")
  s ← get
  row ←
      lift
        (found_or_missing (find (λ (u : Unsubscribe). text_eq u.token (trim token)) s.unsubscribes))
  modify (λ s. record s {
    unsubscribes =
        update_one (λ (u : Unsubscribe). text_eq u.token (trim token))
          (λ u. record u { unsubscribed_at = some now }) s.unsubscribes;
    suppressions = upsert row.email unsubscribed now s.suppressions;
  })
  return row.email
  where
    found_or_missing : Option Unsubscribe → Result Unsubscribe
    found_or_missing none = err (not_found "Unsubscribe token not found.")
    found_or_missing (some u) = ok u

abbrev pub is_message : Text → Row → Bool
is_message message row = option_eq row.job.provider_message_id (some message)

abbrev pub buried : Row → Row
buried row = record row { job = record row.job { status = dead } }

-- The suppression of a bounce or a complaint.
unfoldable pub suppress_recipient : Faults → Reason → Option Text → ℕ → Handler Store (Unit {0})
suppress_recipient faults reason none now = return tt
suppress_recipient faults reason (some email) now = do
  require (not faults.suppression_fails) (internal "Database error.")
  modify (λ s. record s { suppressions = upsert email reason now s.suppressions })

-- `emailJob.updateMany({ where: { providerMessageId }, … })`
unfoldable pub update_message : Faults → Option Text → (Row → Row) → Handler Store (Unit {0})
update_message faults none change = return tt
update_message faults (some message) change = do
  require (not faults.job_update_fails) (internal "Database error.")
  modify (λ s. record s { rows = update_many (is_message message) change s.rows })

unfoldable pub refuse_recipient : Faults → Reason → Event → ℕ → Handler Store (Unit {0})
unfolding suppress_recipient update_message
refuse_recipient faults reason event now = do
  suppress_recipient faults reason event.email now
  update_message faults event.message_id buried

-- `applyEventSideEffects`
unfoldable pub apply_side_effects : Faults → Event → ℕ → Handler Store (Unit {0})
unfolding refuse_recipient update_message
apply_side_effects faults event now =
    if text_eq event.event_type (codes "email.delivered") && is_some event.message_id
    then update_message faults event.message_id (λ row. record row { delivered_at = some event.at })
    else if text_eq event.event_type (codes "email.bounced")
    then refuse_recipient faults bounced event now
    else if text_eq event.event_type (codes "email.complained")
    then refuse_recipient faults complained event now
    else return tt

abbrev pub is_logged : Text → Logged → Bool
is_logged id x = text_eq x.event.id id

-- `emailProviderEvent.create`; is the event one that was logged before?
unfoldable pub create_event : Faults → Event → Handler Store Bool
create_event faults event s =
    if faults.event_create_fails
    then thrown (internal "Database error.") s
    else if any (is_logged event.id) s.events
    then done true s
    else done false
        (record s { events = s.events ++ record { event = event; processed_at = none } ∷ [] })

abbrev pub processed : ℕ → Logged → Logged
processed now x = record x { processed_at = some now }

-- The side effects, and the update of the event's row.
unfoldable pub process_event : Faults → Event → ℕ → Handler Store Bool
unfolding apply_side_effects
process_event faults event now = do
  apply_side_effects faults event now
  require (not faults.event_update_fails) (internal "Database error.")
  modify (λ s. record s { events = update_one (is_logged event.id) (processed now) s.events })
  return false

-- `handleResendWebhook`, from the creation of the event's row on; was the event a duplicate?
unfoldable pub handle_event : Faults → Event → ℕ → Handler Store Bool
unfolding create_event process_event
handle_event faults event now = do
  duplicate ← create_event faults event
  if duplicate then return true else process_event faults event now

-- `handleResendWebhook`
unfoldable pub handle_webhook : Faults → Event → ℕ → Handler Store Bool
unfolding handle_event
handle_webhook faults event now = do
  require (not (is_empty event.id)) (bad_request "Missing webhook event id.")
  handle_event faults event now
