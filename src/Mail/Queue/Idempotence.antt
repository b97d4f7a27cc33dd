-- ===== src/Mail/Queue/Idempotence.antt =====
-- Queueing twice under one key, and the jobs that are out of reach.
use proj_track_official.Prelude.{
  ℕ, ◌≡◌, refl, subst, Bool, true, false, ◌&&◌, ◌||◌, some, [], ◌∷◌, ◌++◌, find, arith,
  Option-cases, Bool-cases, inl, inr, find_sound,
}
use proj_track_official.Prelude.Text.{Text, text_eq_refl, is_empty, CaseTable}
use proj_track_official.Prelude.Table.{find-append, update_one}
use proj_track_official.Prelude.Counts.{find-update_one_by}
use proj_track_official.Prelude.Outcome.{Outcome, done, thrown, final, succeeded}
use proj_track_official.Mail.Job.{Provider, JobStatus, is_sent, is_processing}
use proj_track_official.Mail.Queue.{
  Entry, Queue, Input, has_key, has_id, is_reusable, is_open_window, is_covered, refreshed, new_job,
  create_for_key, create_checked, create_job, trimmed_or_null, normalize_email,
}
use proj_track_official.Mail.Queue.Manage.{assert_retry_allowed, retry_job, cancel_job}

abbrev IsPlaced : Text → Outcome Queue Entry → Type 0
IsPlaced key (done e q) = (find (has_key key) q ≡ some e) × (is_covered e.job.status ≡ true)
IsPlaced key (thrown e q) = Unit

covered_when :
    (status : JobStatus) (within : Bool)
    → ((within && is_covered status) || is_processing status) ≡ true
    → is_covered status ≡ true
covered_when status within h = ground arith

module _ ⦃t : CaseTable⦄ (provider : Provider) (default_attempts : ℕ) where
  -- What a creation under a key leaves is found under the key, and its status is covered by the window.
  create_for_key-find :
      (fresh key : Text) (input : Input) (now : ℕ) (e : Entry) (q q' : Queue)
      → ((x : Entry) → find (has_key key) q ≡ some x → find (has_id x.job.id) q ≡ some x)
      → create_for_key provider default_attempts fresh input now key (find (has_key key) q) q
        ≡ done e q'
      → (find (has_key key) q' ≡ some e) × (is_covered e.job.status ≡ true)
  unfolding create_for_key
  create_for_key-find fresh key input now e q q' unique h =
      elim (Option-cases (find (has_key key) q)) [
        | inl missing ↦
            let new : Entry = record {
              job = new_job fresh provider default_attempts input now;
              key = some key;
              until = input.until;
            } in
            let place = find-append (has_key key) q new missing (text_eq_refl key) in
            let run : done new (q ++ new ∷ []) ≡ done e q' = ground arith in
            subst (IsPlaced key) run (place, refl)
        | inr (x, hit) ↦ elim (Bool-cases (is_reusable now x)) [
          | inl reusable ↦
              let run : done x q ≡ done e q' = ground arith in
              subst (IsPlaced key) run
                (hit, covered_when x.job.status (is_open_window now x.until) reusable)
          | inr over ↦
              let new = refreshed provider default_attempts input in
              let run : done (new x) (update_one (has_id x.job.id) new q) ≡ done e q' =
                ground arith in
              let on = find_sound (has_key key) q hit in
              subst (IsPlaced key) run (
                find-update_one_by (has_key key) (has_id x.job.id) new q hit (unique x hit) on,
                refl,
              )
        ]
      ]

  -- A job that is queued under a key is not queued twice: while its window lasts, to queue another under
  -- that key answers the same job, and changes nothing. Ids are the primary key.
  pub create_job-idempotent :
      (fresh other : Text) (input again : Input) (now later : ℕ) (e : Entry) (q q' : Queue)
      (key : Text)
      → ((x : Entry) → find (has_key key) q ≡ some x → find (has_id x.job.id) q ≡ some x)
      → trimmed_or_null input.key ≡ some key
      → trimmed_or_null again.key ≡ some key
      → is_empty (normalize_email again.user_email) ≡ false
      → is_open_window later e.until ≡ true
      → create_job provider default_attempts fresh input now q ≡ done e q'
      → create_job provider default_attempts other again later q' ≡ done e q'
  unfolding create_job create_checked create_for_key
  create_job-idempotent fresh other input again now later e q q' key unique keyed keyed_again named
        within h =
      elim (Bool-cases (is_empty (normalize_email input.user_email))) [
        | inl nobody ↦ absurd (ground arith)
        | inr somebody ↦
            let facts = create_for_key-find fresh key input now e q q' unique (ground arith) in
            ground arith
      ]

-- A job that was sent stays as it is: to cancel it or to retry it, with force or without, throws and
-- changes nothing.
pub sent_job-unchanged :
    (provider : Provider) (id : Text) (force : Bool) (e : Entry) (q : Queue)
    → find (has_id id) q ≡ some e
    → is_sent e.job.status ≡ true
    → (succeeded (cancel_job id q) ≡ false)
      × (final (cancel_job id q) ≡ q)
      × (succeeded (retry_job provider id force q) ≡ false)
      × (final (retry_job provider id force q) ≡ q)
unfolding cancel_job retry_job assert_retry_allowed
sent_job-unchanged provider id force e q known done_with =
    (ground arith, ground arith, ground arith, ground arith)
