-- ===== src/Mail/Bulk/Spared.antt =====
-- A job that was sent, when many jobs are retried.
use proj_track_official.Prelude.{
  ◌≡◌, refl, ◌∙◌, sym, subst, Bool, true, false, List, [], ◌∷◌, find, keep, arith, Bool-cases, inl,
  inr, All, All-keep,
}
use proj_track_official.Prelude.Text.{Text, text_eq, text_eq_iff}
use proj_track_official.Prelude.Counts.{find-update_one_other}
use proj_track_official.Prelude.Outcome.{final, Result-cases}
use proj_track_official.Mail.Job.{Provider, is_sent}
use proj_track_official.Mail.Queue.{Entry, Queue, has_id}
use proj_track_official.Mail.Queue.Manage.{set_job, as_retried, assert_retry_allowed}
use proj_track_official.Mail.Bulk.{
  Progress, retry_one, retry_each, retry_jobs, normalize_ids, selected_by,
}

-- Every job with this id was sent.
abbrev pub IsSentAs : Text → Entry → Type 0
IsSentAs id e = has_id id e ≡ true → is_sent e.job.status ≡ true

set_job-find :
    (id : Text) (provider : Provider) (e : Entry) (q : Queue)
    → has_id id e ≡ false
    → find (has_id id) (set_job e.job.id (as_retried provider) q) ≡ find (has_id id) q
set_job-find id provider e q off =
    let other : (x : Entry) → has_id e.job.id x ≡ true → has_id id x ≡ false = λ x hit.
      subst (λ own. text_eq own id ≡ false) (sym ((text_eq_iff x.job.id e.job.id).0 hit)) off in
    find-update_one_other (has_id id) (has_id e.job.id)
      (λ (x : Entry). record x { job = as_retried provider x.job }) other other q

retry_one-find :
    (provider : Provider) (force : Bool) (id : Text) (p : Progress) (e : Entry)
    → IsSentAs id e
    → find (has_id id) (retry_one provider force p e).rows ≡ find (has_id id) p.rows
unfolding retry_one assert_retry_allowed
retry_one-find provider force id p e h = elim (Bool-cases (has_id id e)) [
  | inl on ↦ let was_sent = h on in ground arith
  | inr off ↦ elim (Result-cases (assert_retry_allowed e.job force)) [
    | inr (u, allowed) ↦ let step = set_job-find id provider e p.rows off in ground arith
    | inl (reason, blocked) ↦ ground arith
  ]
]

retry_each-find :
    (provider : Provider) (force : Bool) (id : Text) (p : Progress) (es : List Entry)
    → All (IsSentAs id) es
    → find (has_id id) (retry_each provider force p es).rows ≡ find (has_id id) p.rows
unfolding retry_each
retry_each-find provider force id p [] h = refl
retry_each-find provider force id p (e ∷ es) (first, rest) =
    retry_each-find provider force id (retry_one provider force p e) es rest
    ∙ retry_one-find provider force id p e first

-- Retrying many jobs, with force or without, leaves a job that was sent as it is, whichever ids are
-- asked for, when every row with its id was sent (ids are the primary key).
pub retry_jobs-spares_sent :
    (provider : Provider) (ids : List Text) (force : Bool) (id : Text) (q : Queue)
    → All (IsSentAs id) q
    → find (has_id id) (final (retry_jobs provider ids force q)) ≡ find (has_id id) q
unfolding retry_jobs
retry_jobs-spares_sent provider ids force id q h =
    let each =
      retry_each-find provider force id (record { rows = q; retried = []; blocked = [] })
        (keep (selected_by (normalize_ids ids)) q)
        (All-keep (IsSentAs id) (selected_by (normalize_ids ids)) q h) in
    ground arith
