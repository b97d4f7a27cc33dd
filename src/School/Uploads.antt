-- ===== src/School/Uploads.antt =====
-- The uploads that wait for a submission: `resolvePendingUploadsForSubmission` of
-- backend/src/files/files.service.ts, and `consumePendingUploads` of
-- backend/src/repositories/submission.repository.ts. `stored` says whether the object store has a key.
use proj_track_official.Prelude.{
  ℕ, Bool, true, false, ◌&&◌, not, Option, none, some, List, [], ◌∷◌, map, any, find, keep, count,
  length, ltb, leb, ◌==◌, if◌then◌else◌, is_some,
}
use proj_track_official.Prelude.Text.{Text, text_eq, member, is_empty, trim}
use proj_track_official.Prelude.Table.{update_many}
use proj_track_official.Prelude.Outcome.{
  bad_request, forbidden, Handler, ◌>>=◌, ◌>>◌, get, modify, require, throw, return,
}
use proj_track_official.School.Store.{UploadStatus, waiting, consumed, expired, Upload, Store}

-- `Array.from(new Set(…))`: the first of each.
abbrev pub distinct : List Text → List Text
distinct [] = []
distinct (x ∷ xs) = x ∷ keep (λ y. not (text_eq y x)) (distinct xs)

abbrev pub non_empty : List Text → List Text
non_empty ids = keep (λ id. not (is_empty id)) (map trim ids)

abbrev pub is_waiting : UploadStatus → Bool
is_waiting waiting = true
is_waiting _ = false

-- `{ id: { in }, userId, status: 'PENDING', consumedAt: null }`
abbrev pub is_available : List Text → Text → Upload → Bool
is_available ids user u =
    member u.id ids && text_eq u.user_id user && is_waiting u.status && not (is_some u.consumed_at)

abbrev pub is_over : ℕ → Upload → Bool
is_over now u = leb u.expires_at now

-- `updateMany({ where: { id: { in }, status: 'PENDING' }, data: { status: 'EXPIRED' } })`
abbrev pub expire : List Upload → List Upload → List Upload
expire rows uploads =
    update_many (λ u. member u.id (map (λ (r : Upload). r.id) rows) && is_waiting u.status)
      (λ u. record u { status = expired }) uploads

-- The uploads of the ids, in the order of the ids.
abbrev pub in_order : List Text → List Upload → List Upload
in_order [] rows = []
in_order (id ∷ ids) rows = with_row (find (λ u. text_eq u.id id) rows) (in_order ids rows)
  where
    with_row : Option Upload → List Upload → List Upload
    with_row none rest = rest
    with_row (some u) rest = u ∷ rest

-- The check for uploads that are over their time, which marks them.
unfoldable pub refuse_expired : ℕ → List Upload → Handler Store (Unit {0})
refuse_expired now rows s =
    if any (is_over now) rows
    then throw
        (bad_request "One or more uploads have expired. Upload the file again before submitting.")
        (record s { uploads = expire (keep (is_over now) rows) s.uploads })
    else return tt s

-- `resolvePendingUploadsForSubmission` of ids that are there
unfoldable pub resolve_ids : (Text → Bool) → ℕ → List Text → Text → Handler Store (List Upload)
unfolding refuse_expired
resolve_ids stored now ids user = do
  s ← get
  let rows = keep (is_available ids user) s.uploads
  require (not (any (λ id. not (any (λ (u : Upload). text_eq u.id id) rows)) ids))
      (bad_request "One or more uploads are not available for this submission.")
  refuse_expired now rows
  require (not (any (λ (u : Upload). not (stored u.storage_key)) rows)) (
      bad_request
        "One or more uploads are missing from storage. Upload the file again before submitting.")
  return (in_order ids rows)

-- `if (!uploadIds.length) return [];`
abbrev pub unless_empty : List Text → Handler Store (List Upload) → Handler Store (List Upload)
unless_empty [] next = return []
unless_empty (id ∷ ids) next = next

-- `resolvePendingUploadsForSubmission`
unfoldable pub resolve_pending_uploads :
    (Text → Bool) → ℕ → List Text → Text → Handler Store (List Upload)
unfolding resolve_ids
resolve_pending_uploads stored now upload_ids user_id = do
  require (not (is_empty (trim user_id)))
      (forbidden "Authenticated student session is required to attach uploads.")
  let ids = distinct (non_empty upload_ids)
  unless_empty ids (resolve_ids stored now ids (trim user_id))

-- The `where` of the update: still waiting, of this user, and not over its time.
abbrev pub is_consumable : ℕ → List Text → Text → Upload → Bool
is_consumable now ids user u = is_available ids user u && ltb now u.expires_at

abbrev pub spent : ℕ → Text → Upload → Upload
spent now submission u = record u {
  status = consumed;
  consumed_at = some now;
  consumed_by = some submission;
}

-- `consumePendingUploads` of ids that are there
unfoldable pub consume_ids : ℕ → List Text → Text → Text → Handler Store (Unit {0})
consume_ids now ids user submission = do
  s ← get
  modify (λ s. record s {
    uploads = update_many (is_consumable now ids user) (spent now submission) s.uploads;
  })
  require (count (is_consumable now ids user) s.uploads == length ids) (
      bad_request
        "One or more uploads were already used, expired, or no longer belong to this student.")

-- `if (!uploadIds.length) return;`
unfoldable pub consume_if_any : ℕ → List Text → Text → Text → Handler Store (Unit {0})
unfolding consume_ids
consume_if_any now [] user submission = return tt
consume_if_any now (id ∷ ids) user submission = consume_ids now (id ∷ ids) user submission

-- `consumePendingUploads`
unfoldable pub consume_pending_uploads : ℕ → List Text → Text → Text → Handler Store (Unit {0})
unfolding consume_if_any
consume_pending_uploads now upload_ids user submission =
    consume_if_any now (distinct (non_empty upload_ids)) user submission
