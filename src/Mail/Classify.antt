-- ===== src/Mail/Classify.antt =====
-- What a failed send means: backend/src/mail/providers/provider-error-classification.ts. An error is
-- read by its status code, its message and whether the framework threw it; the text of the reason
-- that is kept for the operator is left out.
pub mod Laws
use proj_track_official.Prelude.{
  ℕ, Bool, true, false, ◌&&◌, ◌||◌, not, Option, none, some, List, [], ◌∷◌, ◌==◌, leb, ltb,
  if◌then◌else◌, any,
}
use proj_track_official.Prelude.Text.{Text, codes, trim, CaseTable, to_lower}
use proj_track_official.Mail.Job.{
  FailureReason, sender_not_confirmed, auth_failed, rate_limited, provider_temporary,
  provider_rejected, invalid_recipient, account_restricted, network_error, unknown_provider_error,
  worker_stale_processing, template_render_failed,
}

pub record ProviderError : Type 0 where
  -- `isNestJsException`
  pub is_application : Bool
  pub status_code : Option ℕ
  pub message : Text

pub record Classification : Type 0 where
  pub failure_reason : FailureReason
  pub retryable : Bool

starts_with : Text → Text → Bool
starts_with [] s = true
starts_with (c ∷ p) [] = false
starts_with (c ∷ p) (d ∷ s) = c == d && starts_with p s

-- `includes` of strings
includes : Text → Text → Bool
unfolding starts_with
includes [] term = starts_with term []
includes (c ∷ s) term = starts_with term (c ∷ s) || includes s term

-- `messageIncludes`
message_includes : Text → List Text → Bool
unfolding includes
message_includes normalized terms = any (λ term. includes normalized term) terms

-- `isSenderNotConfirmedMessage` of a normalized message
unfoldable pub is_sender_not_confirmed_message : Text → Bool
unfolding message_includes
is_sender_not_confirmed_message m = message_includes m (
    codes "sender email isn't confirmed"
    ∷ codes "sender email is not confirmed"
    ∷ codes "sender not confirmed"
    ∷ codes "sender not verified"
    ∷ codes "from email not confirmed"
    ∷ codes "from email is not confirmed"
    ∷ codes "unauthorized sender"
    ∷ [])

unfoldable pub is_account_restricted_message : Text → Bool
unfolding message_includes
is_account_restricted_message m = message_includes m (
    codes "currently under review"
    ∷ codes "account is currently under review"
    ∷ codes "account under review"
    ∷ codes "account suspended"
    ∷ codes "account restricted"
    ∷ codes "account disabled"
    ∷ codes "account blocked"
    ∷ codes "sender account is not active"
    ∷ codes "mail account is not active"
    ∷ [])

unfoldable pub is_auth_failure_message : Text → Bool
unfolding message_includes
is_auth_failure_message m = message_includes m (
    codes "authentication failed"
    ∷ codes "auth failed"
    ∷ codes "invalid api key"
    ∷ codes "invalid credentials"
    ∷ codes "not authorized"
    ∷ codes "unauthorized"
    ∷ codes "forbidden"
    ∷ codes "access denied"
    ∷ [])

unfoldable pub is_rate_limited_message : Text → Bool
unfolding message_includes
is_rate_limited_message m = message_includes m (
    codes "rate limit"
    ∷ codes "too many requests"
    ∷ codes "throttle"
    ∷ codes "quota exceeded"
    ∷ codes "slow down"
    ∷ [])

unfoldable pub is_network_failure_message : Text → Bool
unfolding message_includes
is_network_failure_message m = message_includes m (
    codes "network"
    ∷ codes "timeout"
    ∷ codes "timed out"
    ∷ codes "econnreset"
    ∷ codes "econnrefused"
    ∷ codes "enotfound"
    ∷ codes "eai_again"
    ∷ codes "socket hang up"
    ∷ codes "fetch failed"
    ∷ codes "tls"
    ∷ codes "getaddrinfo"
    ∷ codes "connect failed"
    ∷ [])

unfoldable pub is_invalid_recipient_message : Text → Bool
unfolding message_includes includes
is_invalid_recipient_message m =
    (includes m (codes "\"to\"") && includes m (codes "is invalid"))
    || message_includes m (
        codes "invalid recipient"
        ∷ codes "recipient address rejected"
        ∷ codes "bad recipient"
        ∷ codes "user unknown"
        ∷ codes "mailbox unavailable"
        ∷ codes "invalid email"
        ∷ codes "email is invalid"
        ∷ codes "address is invalid"
        ∷ codes "email address is invalid"
        ∷ codes "no recipients"
        ∷ codes "malformed address"
        ∷ [])

unfoldable pub is_temporary_provider_message : Text → Bool
unfolding message_includes
is_temporary_provider_message m = message_includes m (
    codes "temporarily unavailable"
    ∷ codes "temporary failure"
    ∷ codes "temporary error"
    ∷ codes "service unavailable"
    ∷ codes "internal server error"
    ∷ codes "bad gateway"
    ∷ codes "gateway timeout"
    ∷ codes "try again later"
    ∷ codes "upstream"
    ∷ [])

unfoldable pub is_hard_rejection_message : Text → Bool
unfolding message_includes
is_hard_rejection_message m = message_includes m (
    codes "rejected"
    ∷ codes "rejection"
    ∷ codes "denied"
    ∷ codes "validation failed"
    ∷ codes "unprocessable entity"
    ∷ codes "policy violation"
    ∷ codes "not accepted"
    ∷ [])

abbrev pub code_is : Option ℕ → ℕ → Bool
code_is none n = false
code_is (some c) n = c == n

-- `statusCode && statusCode >= lo`; 0 counts as no code.
abbrev pub code_from : Option ℕ → ℕ → Bool
code_from none lo = false
code_from (some c) lo = ltb 0 c && leb lo c

abbrev pub code_below : Option ℕ → ℕ → Bool
code_below none hi = false
code_below (some c) hi = ltb c hi

abbrev pub classed : FailureReason → Bool → Classification
classed failure_reason retryable = record { failure_reason = failure_reason; retryable = retryable }

-- The ladder of `classifyProviderError` on a message that is normalized.
unfoldable pub classify_message : Option ℕ → Text → Classification
classify_message code m =
    if is_sender_not_confirmed_message m
    then classed sender_not_confirmed true
    else if is_account_restricted_message m
    then classed account_restricted false
    else if code_is code 401 || code_is code 403 || is_auth_failure_message m
    then classed auth_failed false
    else if code_is code 429 || is_rate_limited_message m
    then classed rate_limited true
    else if is_network_failure_message m
    then classed network_error true
    else if is_invalid_recipient_message m
    then classed invalid_recipient false
    else if code_from code 500 || is_temporary_provider_message m
    then classed provider_temporary true
    else if (code_from code 400 && code_below code 500) || is_hard_rejection_message m
    then classed provider_rejected false
    else classed unknown_provider_error false

-- `classifyProviderError`
unfoldable pub classify_provider_error : ⦃t : CaseTable⦄ → ProviderError → Classification
unfolding classify_message
classify_provider_error e =
    if e.is_application
    then classed unknown_provider_error false
    else classify_message e.status_code (to_lower (trim e.message))

-- `MAIL_RETRYABLE_FAILURE_REASONS`, of the values that the program writes
abbrev pub is_listed_retryable : FailureReason → Bool
is_listed_retryable rate_limited = true
is_listed_retryable provider_temporary = true
is_listed_retryable network_error = true
is_listed_retryable unknown_provider_error = true
is_listed_retryable worker_stale_processing = true
is_listed_retryable sender_not_confirmed = true
is_listed_retryable _ = false

-- `MAIL_NON_RETRYABLE_FAILURE_REASONS`
abbrev pub is_listed_final : FailureReason → Bool
is_listed_final auth_failed = true
is_listed_final invalid_recipient = true
is_listed_final account_restricted = true
is_listed_final provider_rejected = true
is_listed_final template_render_failed = true
is_listed_final _ = false
