-- ===== src/Auth/Refresh.antt =====
-- Refresh tokens: backend/src/auth/token.service.ts. What `encode` makes of a payload (base64url, JSON and
-- an HMAC under the secret of refresh tokens), what `decode` reads back from it, the environment's numbers
-- and texts, and the hashing of tokens for the table of sessions are the instance `TokenService`.
use proj_track_official.Prelude.{
  ℕ, ◌+◌, ◌*◌, ◌/◌, ◌≡◌, Bool, ◌&&◌, not, Option, none, some, leb, ltb, if◌then◌else◌,
}
use proj_track_official.Prelude.Text.{Text, codes, text_eq}
use proj_track_official.Auth.User.{User}
pub mod Laws

-- The payload of a refresh token, less role and email, which nothing reads; a missing text is empty, and
-- times are in seconds.
pub record Claims : Type 0 where
  pub token_type : Text
  pub issuer : Text
  pub audience : Text
  pub sub : Text
  pub sid : Text
  pub remember : Bool
  pub issued_at : ℕ
  pub expires_at : ℕ

-- What the sessions read of a token that is verified.
pub record Payload : Type 0 where
  pub sub : Text
  pub sid : Text
  pub remember : Bool

pub record TokenService : Type 0 where
  pub sign : Claims → Text
  -- none if the header, the signature or the JSON is not as `sign` makes them
  pub open_token : Text → Option Claims
  pub hash_token : Text → Text
  pub issuer : Text
  pub audience : Text
  pub refresh_ttl_ms : ℕ
  pub remember_refresh_ttl_ms : ℕ

-- `Math.floor(ms / 1000)`
abbrev pub seconds : ℕ → ℕ
seconds ms = ms / 1000

module _ ⦃service : TokenService⦄ where
  abbrev pub refresh_claims : ℕ → User → Text → ℕ → Bool → Claims
  refresh_claims now user session_id ttl_ms remember = record {
    token_type = codes "refresh";
    issuer = service.issuer;
    audience = service.audience;
    sub = user.id;
    sid = session_id;
    remember = remember;
    issued_at = seconds now;
    expires_at = seconds now + seconds ttl_ms;
  }

  -- `createRefreshToken`
  unfoldable pub create_refresh : ℕ → User → Text → ℕ → Bool → Text
  create_refresh now user session_id ttl_ms remember =
      service.sign (refresh_claims now user session_id ttl_ms remember)

  -- The checks of `decode` on the payload.
  abbrev pub is_valid : ℕ → Claims → Bool
  is_valid now c =
      text_eq c.token_type (codes "refresh")
      && text_eq c.issuer service.issuer
      && text_eq c.audience service.audience
      && leb c.issued_at (seconds now + 60)
      && ltb (seconds now) c.expires_at

  abbrev pub payload_of : Claims → Payload
  payload_of c = record { sub = c.sub; sid = c.sid; remember = c.remember }

  -- `verifyRefreshToken`
  unfoldable pub verify_refresh : ℕ → Text → Option Payload
  verify_refresh now token = elim (service.open_token token) [
    | none ↦ none
    | some c ↦ if is_valid now c then some (payload_of c) else none
  ]
