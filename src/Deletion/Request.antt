-- ===== src/Deletion/Request.antt =====
-- The requests: backend/src/data-deletion/data-deletion.lifecycle.ts and the operations of
-- backend/src/data-deletion/data-deletion.service.ts that write.

pub mod Laws
use proj_track_official.Prelude.{
  ℕ, Bool, true, false, ◌&&◌, ◌||◌, not, Option, none, some, List, [], ◌∷◌, ◌++◌, if◌then◌else◌,
  find, any, is_some,
}
use proj_track_official.Prelude.Text.{
  Text, codes, text_eq, is_empty, trim, underscore_spaces, CaseTable, to_upper, nullish, falsy,
}
use proj_track_official.Prelude.Table.{update_one}
use proj_track_official.Prelude.Outcome.{
  bad_request, forbidden, not_found, conflict, Handler, get, modify, require, return, throw, ◌>>=◌,
  ◌>>◌, thrown,
}
use proj_track_official.Deletion.Store.{
  RequestStatus, pending, approved, denied, cancelled, Request, Store, Person, requested,
  AuditAction, request_cancelled, request_approved, request_denied, record_audit,
}

-- `CONFIRMATION_PHRASE`
abbrev pub confirmation_phrase : Text
confirmation_phrase = codes "DELETE MY DATA"

abbrev pub status_text : RequestStatus → Text
status_text pending = codes "PENDING"
status_text approved = codes "APPROVED"
status_text denied = codes "DENIED"
status_text cancelled = codes "CANCELLED"

read_status : Text → RequestStatus
read_status normalized =
    if text_eq normalized (codes "PENDING")
    then pending
    else if text_eq normalized (codes "APPROVED")
    then approved
    else if text_eq normalized (codes "DENIED")
    then denied
    else if text_eq normalized (codes "CANCELLED")
    then cancelled
    else pending

-- `normalizeDataDeletionRequestStatus`
unfoldable pub normalize_status : ⦃t : CaseTable⦄ → Option Text → RequestStatus
unfolding read_status
normalize_status status =
    read_status (to_upper (underscore_spaces (trim (falsy status (codes "PENDING")))))

abbrev pub is_pending : RequestStatus → Bool
is_pending pending = true
is_pending _ = false

abbrev pub is_approved : RequestStatus → Bool
is_approved approved = true
is_approved _ = false

abbrev pub status_eq : RequestStatus → RequestStatus → Bool
status_eq pending pending = true
status_eq approved approved = true
status_eq denied denied = true
status_eq cancelled cancelled = true
status_eq _ _ = false

-- The table `allowed`
unfoldable pub transition_allowed : RequestStatus → RequestStatus → Bool
transition_allowed pending to = not (is_pending to)
transition_allowed _ to = false

-- `canTransitionDataDeletionStatus`
unfoldable pub can_transition : ⦃t : CaseTable⦄ → Option Text → Option Text → Bool
unfolding normalize_status transition_allowed
can_transition current next =
    let from = normalize_status current in
    let to = normalize_status next in if status_eq to from then true else transition_allowed from to

-- What the operations answer: the row's id and status.
pub record Receipt : Type 0 where
  pub id : Text
  pub status : RequestStatus

-- `actor?.actorUserId && actor.actorUserId !== requesterUserId`
abbrev pub is_other : Option Text → Text → Bool
is_other none requester = false
is_other (some actor) requester = not (is_empty actor) && not (text_eq actor requester)

abbrev pub has_pending : Text → Request → Bool
has_pending requester r = text_eq r.requester_id requester && is_pending r.status

-- `text ? String(text).trim() || null : null`
unfoldable pub trimmed : Option Text → Option Text
trimmed none = none
trimmed (some t) = if is_empty (trim t) then none else some (trim t)

abbrev pub or_actor : Option Text → Text → Option Text
or_actor none user = some user
or_actor (some actor) user = some actor

-- The row that `createRequest` creates.
abbrev pub new_request : Text → Text → Option Text → Option Text → Request
new_request id requester confirmation reason = record {
  id = id;
  requester_id = requester;
  status = pending;
  reason = trimmed reason;
  confirmation_phrase = trim (nullish confirmation []);
  reviewed_by = none;
  reviewed_at = none;
  review_note = none;
}

-- `createRequest`; the database makes the id.
unfoldable pub create_request :
    Text → Text → Option Text → Option Text → Option Text → Handler Store Receipt
create_request id requester confirmation reason actor = do
  require (text_eq (trim (nullish confirmation [])) confirmation_phrase)
      (bad_request "Confirmation phrase must be exactly \"DELETE MY DATA\".")
  require (not (is_other actor requester))
      (forbidden "You can only request deletion for your own account.")
  s ← get
  require (not (any (has_pending requester) s.requests))
      (conflict "You already have a pending data deletion request.")
  require (any (λ (u : Person). text_eq u.id requester) s.people) (not_found "User not found.")
  modify
      (λ s. record s { requests = s.requests ++ new_request id requester confirmation reason ∷ [] })
  record_audit (or_actor actor requester) requested id
  return (record { id = id; status = pending })

abbrev pub closed : RequestStatus → Text → ℕ → Option Text → Request → Request
closed status reviewer now remark r = record r {
  status = status;
  reviewed_by = some reviewer;
  reviewed_at = some now;
  review_note = remark;
}

abbrev pub close : Text → RequestStatus → Text → ℕ → Option Text → Handler Store (Unit {0})
close id status reviewer now remark = modify (λ s. record s {
  requests = update_one (λ r. text_eq r.id id) (closed status reviewer now remark) s.requests;
})

module _ ⦃t : CaseTable⦄ where
  -- `cancelOwnRequest` on the row found
  cancel_found : Request → Text → Text → ℕ → Option Text → Handler Store Receipt
  unfolding can_transition
  cancel_found r id user now actor = do
    require (text_eq r.requester_id user) (not_found "Data deletion request not found.")
    require (is_pending (normalize_status (some (status_text r.status))))
        (bad_request "Only PENDING requests can be cancelled by the requester.")
    require
        (can_transition (some (status_text (normalize_status (some (status_text r.status)))))
          (some (codes "CANCELLED")))
        (bad_request "Cannot cancel this request.")
    close id cancelled user now (some (codes "Cancelled by requester"))
    record_audit (or_actor actor user) request_cancelled id
    return (record { id = id; status = cancelled })

  -- `cancelOwnRequest`
  unfoldable pub cancel_own_request : Text → Text → ℕ → Option Text → Handler Store Receipt
  unfolding cancel_found
  cancel_own_request id user now actor s = elim (find (λ r. text_eq r.id id) s.requests) [
    | none ↦ thrown (not_found "Data deletion request not found.") s
    | some r ↦ cancel_found r id user now actor s
  ]

  -- `performReview` on the row found, with the admin who is signed in, if any
  review_found :
      Request
      → Text
      → RequestStatus
      → AuditAction
      → ℕ
      → Option Text
      → Option Text
      → Handler Store Receipt
  unfolding can_transition trimmed
  review_found r id target action now actor remark = do
    require (is_pending (normalize_status (some (status_text r.status))))
        (bad_request "Only PENDING requests can be approved or denied.")
    require
        (can_transition (some (status_text (normalize_status (some (status_text r.status)))))
          (some (status_text target)))
        (bad_request "Invalid status transition.")
    require (not (is_empty (nullish actor []))) (forbidden "Authenticated admin actor is required.")
    close id target (nullish actor []) now (trimmed remark)
    record_audit actor action id
    return (record { id = id; status = target })

  perform_review :
      Text → RequestStatus → AuditAction → ℕ → Option Text → Option Text → Handler Store Receipt
  unfolding review_found
  perform_review id target action now actor remark s =
      elim (find (λ r. text_eq r.id id) s.requests) [
        | none ↦ thrown (not_found "Data deletion request not found.") s
        | some r ↦ review_found r id target action now actor remark s
      ]

  unfoldable pub approve : Text → ℕ → Option Text → Handler Store Receipt
  unfolding perform_review
  approve id now actor = perform_review id approved request_approved now actor none

  unfoldable pub deny : Text → ℕ → Option Text → Option Text → Handler Store Receipt
  unfolding perform_review
  deny id now actor remark = perform_review id denied request_denied now actor remark
