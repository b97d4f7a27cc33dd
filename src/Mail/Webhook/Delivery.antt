-- ===== src/Mail/Webhook/Delivery.antt =====
-- An event that is delivered twice, and one whose handling failed.
use proj_track_official.Prelude.{
  ℕ, ◌≡◌, refl, sym, ◌∙◌, ap, subst, true, false, ◌&&◌, Option, none, some, List, [], ◌∷◌, ◌++◌,
  any, arith, Bool-cases, inl, inr, is_some, Bool, if◌then◌else◌,
}
use proj_track_official.Prelude.Text.{Text, codes, text_eq, text_eq_refl, is_empty}
use proj_track_official.Prelude.Table.{update_one}
use proj_track_official.Prelude.Outcome.{
  done, final, Outcome-cases, Outcome, thrown, Handler, ◌>>=◌, return,
}
use proj_track_official.Mail.Webhook.{
  Reason, Event, Logged, Row, Store, Faults, is_logged, bounced, complained, buried,
  suppress_recipient, update_message, refuse_recipient, apply_side_effects, create_event,
  process_event, handle_event, handle_webhook,
}

update_message-events :
    (faults : Faults) (message : Option Text) (change : Row → Row) (s : Store)
    → (final (update_message faults message change s)).events ≡ s.events
unfolding update_message
update_message-events faults none change s = refl
update_message-events faults (some message) change s = ground arith

suppress_recipient-events :
    (faults : Faults) (reason : Reason) (email : Option Text) (now : ℕ) (s : Store)
    → (final (suppress_recipient faults reason email now s)).events ≡ s.events
unfolding suppress_recipient
suppress_recipient-events faults reason none now s = refl
suppress_recipient-events faults reason (some email) now s = ground arith

refuse_recipient-events :
    (faults : Faults) (reason : Reason) (event : Event) (now : ℕ) (s : Store)
    → (final (refuse_recipient faults reason event now s)).events ≡ s.events
unfolding refuse_recipient
refuse_recipient-events faults reason event now s =
    let first = suppress_recipient-events faults reason event.email now s in
    elim (Outcome-cases (suppress_recipient faults reason event.email now s)) [
      | inl (u, mid, e) ↦
          let second = update_message-events faults event.message_id buried mid in ground arith
      | inr (e', mid, e) ↦ ground arith
    ]

-- The side effects do not touch the log of events.
apply_side_effects-events :
    (faults : Faults) (event : Event) (now : ℕ) (s : Store)
    → (final (apply_side_effects faults event now s)).events ≡ s.events
unfolding apply_side_effects
apply_side_effects-events faults event now s =
    let refused = refuse_recipient-events faults bounced event now s in
    let complained_of = refuse_recipient-events faults complained event now s in
    let told =
      update_message-events faults event.message_id
        (λ row. record row { delivered_at = some event.at }) s in
    elim (Bool-cases
      (text_eq event.event_type (codes "email.delivered") && is_some event.message_id)) [
        | inl delivered ↦ rw delivered told
        | inr other ↦ elim (Bool-cases (text_eq event.event_type (codes "email.bounced"))) [
          | inl b ↦ rw (other, b) refused
          | inr nb ↦ elim (Bool-cases (text_eq event.event_type (codes "email.complained"))) [
            | inl c ↦ rw (other, nb, c) complained_of
            | inr nc ↦ rw (other, nb, nc) refl
          ]
        ]
      ]

any-append_last :
    (id : Text) (xs : List Logged) (x : Logged)
    → is_logged id x ≡ true
    → any (is_logged id) (xs ++ x ∷ []) ≡ true
any-append_last id [] x h = ground arith
any-append_last id (y ∷ xs) x h = let rest = any-append_last id xs x h in ground arith

any-update_one :
    (id : Text) (now : ℕ) (xs : List Logged)
    → any (is_logged id) (update_one (is_logged id) (λ x. record x { processed_at = some now }) xs)
      ≡ any (is_logged id) xs
any-update_one id now [] = refl
any-update_one id now (x ∷ xs) = elim (Bool-cases (is_logged id x)) [
  | inl e ↦ rw e (rw e refl)
  | inr e ↦ rw e (rw e (any-update_one id now xs))
]

process_event-logs :
    (faults : Faults) (event : Event) (now : ℕ) (s : Store)
    → any (is_logged event.id) s.events ≡ true
    → any (is_logged event.id) (final (process_event faults event now s)).events ≡ true
unfolding process_event
process_event-logs faults event now s there =
    let same = apply_side_effects-events faults event now s in
    elim (Outcome-cases (apply_side_effects faults event now s)) [
      | inl (u, mid, e) ↦
          let marked = any-update_one event.id now mid.events in
          let kept : any (is_logged event.id) mid.events ≡ true =
            subst (λ l. any (is_logged event.id) l ≡ true)
              (sym same ∙ ap (λ o. (final {S = Store} o).events) e) there in
          ground arith
      | inr (e', mid, e) ↦
          let kept : any (is_logged event.id) mid.events ≡ true =
            subst (λ l. any (is_logged event.id) l ≡ true)
              (sym same ∙ ap (λ o. (final {S = Store} o).events) e) there in
          ground arith
    ]

bind-done :
    {A B : Type 0} (m : Handler Store A) (f : A → Handler Store B) (a : A) (s s' : Store)
    → m s ≡ done a s'
    → (m >>= f) s ≡ f a s'
bind-done {A} {B} m f a s s' h =
    ap {B = Outcome Store B}
      (λ (o : Outcome Store A). elim o [ done a s' ↦ f a s' | thrown e s' ↦ thrown e s' ]) h

create_event-known :
    (faults : Faults) (event : Event) (s : Store)
    → faults.event_create_fails ≡ false
    → any (is_logged event.id) s.events ≡ true
    → create_event faults event s ≡ done true s
unfolding create_event
create_event-known faults event s written logged = rw (written, logged) refl

create_event-new :
    (faults : Faults) (event : Event) (s : Store)
    → faults.event_create_fails ≡ false
    → any (is_logged event.id) s.events ≡ false
    → create_event faults event s
      ≡ done false
          (record s { events = s.events ++ record { event = event; processed_at = none } ∷ [] })
unfolding create_event
create_event-new faults event s written new = rw (written, new) refl

-- What follows the creation of the row.
next : Faults → Event → ℕ → Bool → Handler Store Bool
next faults event now duplicate = if duplicate then return true else process_event faults event now

handle_event-known :
    (faults : Faults) (event : Event) (now : ℕ) (s : Store)
    → faults.event_create_fails ≡ false
    → any (is_logged event.id) s.events ≡ true
    → handle_event faults event now s ≡ done true s
unfolding handle_event next
handle_event-known faults event now s written logged =
    bind-done (create_event faults event) (next faults event now) true s s
      (create_event-known faults event s written logged)

handle_event-new :
    (faults : Faults) (event : Event) (now : ℕ) (s : Store)
    → faults.event_create_fails ≡ false
    → any (is_logged event.id) s.events ≡ false
    → handle_event faults event now s
      ≡ process_event faults event now
          (record s { events = s.events ++ record { event = event; processed_at = none } ∷ [] })
unfolding handle_event next
handle_event-new faults event now s written new =
    bind-done (create_event faults event) (next faults event now) false s _
      (create_event-new faults event s written new)

handle_event-logs :
    (faults : Faults) (event : Event) (now : ℕ) (s : Store)
    → faults.event_create_fails ≡ false
    → any (is_logged event.id) (final (handle_event faults event now s)).events ≡ true
handle_event-logs faults event now s written =
    elim (Bool-cases (any (is_logged event.id) s.events)) [
      | inl logged ↦ rw (handle_event-known faults event now s written logged) logged
      | inr new ↦
          let row : Logged = record { event = event; processed_at = none } in
          rw (handle_event-new faults event now s written new) (
            process_event-logs faults event now (record s { events = s.events ++ row ∷ [] })
              (any-append_last event.id s.events row (text_eq_refl event.id)))
    ]

-- A webhook event with an id whose row the database did not refuse to create is from then on answered as
-- a duplicate: whatever the first handling did, and whichever side effects or final update failed in it,
-- the second one, in which the create fails at most by the unique index, answers `true` and changes
-- nothing.
pub handle_webhook-duplicate :
    (first second : Faults) (event : Event) (now later : ℕ) (s : Store)
    → is_empty event.id ≡ false
    → first.event_create_fails ≡ false
    → second.event_create_fails ≡ false
    → handle_webhook second event later (final (handle_webhook first event now s))
      ≡ done true (final (handle_webhook first event now s))
unfolding handle_webhook
handle_webhook-duplicate first second event now later s named written reached = rw named (
    handle_event-known second event later (final (handle_event first event now s)) reached
      (handle_event-logs first event now s written))
