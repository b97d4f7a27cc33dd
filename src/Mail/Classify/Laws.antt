-- ===== src/Mail/Classify/Laws.antt =====
-- The verdicts of the classification against the lists of reasons, and against status codes.
use proj_track_official.Prelude.{◌≡◌, ◌≢◌, ◌⊎◌, true, false, some, arith}
use proj_track_official.Prelude.Text.{CaseTable}
use proj_track_official.Mail.Job.{sender_not_confirmed, unknown_provider_error}
use proj_track_official.Mail.Classify.{
  ProviderError, classify_provider_error, is_listed_retryable, is_listed_final,
}

-- A failure that the classifier names is retried exactly if the list of retryable reasons has its
-- reason.
pub classify-retryable :
    ⦃t : CaseTable⦄
    → (e : ProviderError) → (classify_provider_error e).failure_reason ≢ unknown_provider_error
    → (classify_provider_error e).retryable
      ≡ is_listed_retryable (classify_provider_error e).failure_reason
unfolding classify_provider_error
classify-retryable e h = ground arith

-- The unknown failure is the exception: the list of retryable reasons has it, and the classifier
-- never lets it be retried.
pub classify-unknown :
    ⦃t : CaseTable⦄
    → (e : ProviderError) → (classify_provider_error e).failure_reason ≡ unknown_provider_error
    → ((classify_provider_error e).retryable ≡ false)
      × (is_listed_retryable (classify_provider_error e).failure_reason ≡ true)
unfolding classify_provider_error
classify-unknown e h = (ground arith, ground arith)

-- A failure that is classed as retryable is never one of the reasons listed as final.
pub classify-final :
    ⦃t : CaseTable⦄
    → (e : ProviderError) → is_listed_final (classify_provider_error e).failure_reason ≡ true
    → (classify_provider_error e).retryable ≡ false
unfolding classify_provider_error
classify-final e = ground arith

-- An exception of the application itself is never retried, and so is a refused authentication,
-- unless its message says that the sender is not confirmed.
pub classify-refused :
    ⦃t : CaseTable⦄
    → (e : ProviderError)
    → (e.is_application ≡ true) ⊎ (e.status_code ≡ some 401) ⊎ (e.status_code ≡ some 403)
    → (classify_provider_error e).failure_reason ≢ sender_not_confirmed
    → (classify_provider_error e).retryable ≡ false
unfolding classify_provider_error
classify-refused e h = ground arith
