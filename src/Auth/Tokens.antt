-- ===== src/Auth/Tokens.antt =====
-- One-time account links: backend/src/auth/account-action-token.service.ts. Hashing and encryption
-- (token-crypto.ts over the runtime's `crypto`) are the instance `Crypto`; the random token, public
-- reference, row id and encryption nonce are drawn by the caller.

use Prim.Native.String.{String}
pub mod Once
pub mod Issuing
mod Tests
use proj_track_official.Prelude.{
  ℕ, ◌+◌, ◌*◌, Bool, true, false, ◌&&◌, ◌||◌, not, Option, none, some, List, [], ◌∷◌, ◌++◌, ◌==◌,
  ltb, leb, if◌then◌else◌, is_some, find, keep, count,
}
use proj_track_official.Prelude.Text.{Text, text_eq, is_empty, trim, nullish, falsy}
use proj_track_official.Prelude.Table.{update_many}
use proj_track_official.Prelude.Outcome.{
  Error, bad_request, not_found, Result, ok, err, Outcome, done, thrown,
}
use proj_track_official.Prelude.Check.{◌>>=◌, ◌>>◌, require}
use proj_track_official.Auth.User.{User, is_active}

pub data TokenType : Type 0 where
  password_reset account_activation : TokenType

abbrev pub type_eq : TokenType → TokenType → Bool
type_eq password_reset password_reset = true
type_eq account_activation account_activation = true
type_eq _ _ = false

pub record Crypto : Type 0 where
  pub hash : Text → Text
  pub encrypt : ℕ → Text → Text
  -- none where the source throws
  pub decrypt : Text → Option Text

pub record Token : Type 0 where
  pub id : Text
  pub user_id : Text
  pub token_type : TokenType
  pub public_ref : Text
  pub token_hash : Text
  pub encrypted_token : Text
  pub created_at : ℕ
  pub expires_at : ℕ
  pub used_at : Option ℕ
  pub revoked_at : Option ℕ

pub record Store : Type 0 where
  pub tokens : List Token
  -- The relation `record.user`.
  pub users : Text → User

pub record Fresh : Type 0 where
  pub raw : Text
  pub ref : Text
  pub row_id : Text
  pub nonce : ℕ

pub record Issued : Type 0 where
  pub token : Text
  pub public_ref : Text
  pub expires_at : ℕ
  pub reused : Bool

-- `ttlMs`, with `ACCOUNT_ACTION_TOKEN_TTL_MS`
abbrev pub ttl_ms : TokenType → ℕ
ttl_ms password_reset = 15 * 60 * 1000
ttl_ms account_activation = 60 * 60 * 1000

abbrev pub is_unspent : Token → Bool
is_unspent r = not (is_some r.used_at) && not (is_some r.revoked_at)

abbrev pub is_owned : Text → TokenType → Token → Bool
is_owned user_id ty r = text_eq r.user_id user_id && type_eq r.token_type ty

-- `usedAt: null, revokedAt: null, expiresAt: { gt: now }` of one user and type
abbrev pub is_live : Text → TokenType → ℕ → Token → Bool
is_live user_id ty now r = is_owned user_id ty r && is_unspent r && ltb now r.expires_at

-- `orderBy: { createdAt: 'desc' }`; of equal times the first row is taken.
unfoldable pub newest : List Token → Option Token
newest [] = none
newest (r ∷ rs) = elim (newest rs) [
  | none ↦ some r
  | some best ↦ if ltb r.created_at best.created_at then some best else some r
]

abbrev pub revoke : ℕ → Token → Token
revoke now r = record r { revoked_at = some now }

abbrev pub mark_used : ℕ → Token → Token
mark_used now r = record r { used_at = some now }

abbrev pub is_consumable : Text → ℕ → Token → Bool
is_consumable id now r = text_eq r.id id && is_unspent r && ltb now r.expires_at

-- Why a consumption changed no row.
refusal : Option Token → ℕ → Error
refusal none now = bad_request "SETUP_LINK_ALREADY_USED"
refusal (some current) now =
    if is_some current.revoked_at
    then bad_request "SETUP_LINK_ALREADY_USED"
    else if is_some current.used_at
    then bad_request "SETUP_LINK_ALREADY_USED"
    else if leb current.expires_at now
    then bad_request "SETUP_LINK_EXPIRED"
    else bad_request "SETUP_LINK_ALREADY_USED"

-- The guarded update of `consume`; between the check and this other requests may have written.
unfoldable pub consume_record : Token → ℕ → Store → Outcome Store User
unfolding refusal
consume_record record_ now s =
    let changed = count (is_consumable record_.id now) s.tokens in
    let s' = record s {
      tokens = update_many (is_consumable record_.id now) (mark_used now) s.tokens;
    } in
    if changed == 1
    then done (s.users record_.user_id) s'
    else thrown (refusal (find (λ r. text_eq r.id record_.id) s'.tokens) now) s'

module _ ⦃crypto : Crypto⦄ where
  -- The row that `issue` creates.
  abbrev pub new_token : Fresh → Text → TokenType → ℕ → Token
  new_token fresh user_id ty later = record {
    id = fresh.row_id;
    user_id = user_id;
    token_type = ty;
    public_ref = fresh.ref;
    token_hash = crypto.hash fresh.raw;
    encrypted_token = crypto.encrypt fresh.nonce fresh.raw;
    created_at = later;
    expires_at = later + ttl_ms ty;
    used_at = none;
    revoked_at = none;
  }

  -- The tail of `issue`; `later` is its own reading of the clock.
  pub create_token : Fresh → Text → TokenType → ℕ → Store → Outcome Store Issued
  create_token fresh user_id ty later s =
      done
        (record {
          token = fresh.raw;
          public_ref = fresh.ref;
          expires_at = later + ttl_ms ty;
          reused = false;
        })
        (record s { tokens = s.tokens ++ new_token fresh user_id ty later ∷ [] })

  -- `issue` where an active token may be used again: `decryptAccountActionToken` of it is given.
  reuse_or_create :
      Fresh → Text → TokenType → ℕ → ℕ → Token → Option Text → Store → Outcome Store Issued
  reuse_or_create fresh user_id ty now later active none s =
      create_token fresh user_id ty later
        (record s { tokens = update_many (λ r. text_eq r.id active.id) (revoke now) s.tokens })
  reuse_or_create fresh user_id ty now later active (some raw) s =
      done
        (record {
          token = raw;
          public_ref = active.public_ref;
          expires_at = active.expires_at;
          reused = true;
        })
        s

  -- `issue` with `alwaysFresh`
  unfoldable pub issue_fresh : Fresh → Text → TokenType → ℕ → ℕ → Store → Outcome Store Issued
  unfolding create_token
  issue_fresh fresh user_id ty now later s = create_token fresh user_id ty later (record s {
    tokens = update_many (λ r. is_owned user_id ty r && is_unspent r) (revoke now) s.tokens;
  })

  -- `issue` without it
  unfoldable pub issue_reusing : Fresh → Text → TokenType → ℕ → ℕ → Store → Outcome Store Issued
  unfolding create_token reuse_or_create newest
  issue_reusing fresh user_id ty now later s =
      elim (newest (keep (is_live user_id ty now) s.tokens)) [
        | none ↦ create_token fresh user_id ty later s
        | some active ↦
            reuse_or_create fresh user_id ty now later active
              (crypto.decrypt active.encrypted_token) s
      ]

  -- `issuePasswordReset`
  unfoldable pub issue_password_reset : Fresh → Text → ℕ → ℕ → Store → Outcome Store Issued
  unfolding issue_reusing
  issue_password_reset fresh user_id = issue_reusing fresh user_id password_reset

  -- `issueActivation`
  unfoldable pub issue_activation : Fresh → Text → ℕ → ℕ → Store → Outcome Store Issued
  unfolding issue_fresh
  issue_activation fresh user_id = issue_fresh fresh user_id account_activation

  -- The checks of `resolveValidRecord` on the row that the reference leads to.
  check_record : TokenType → Text → ℕ → Store → Token → Result Token
  check_record ty raw now s record_ = do
    require (type_eq record_.token_type ty) (not_found "Account action token not found.")
    require (is_unspent record_) (bad_request "SETUP_LINK_ALREADY_USED")
    require (leb now record_.expires_at) (bad_request "SETUP_LINK_EXPIRED")
    require (not (is_active (s.users record_.user_id).status))
        (bad_request "ACCOUNT_ALREADY_ACTIVE")
    require (text_eq record_.token_hash (crypto.hash raw))
        (not_found "Account action token not found.")
    ok record_

  -- `resolveValidRecord`
  unfoldable pub resolve_valid_record :
      TokenType → Option Text → Option Text → ℕ → Store → Result Token
  unfolding check_record
  resolve_valid_record ty ref token now s =
      let public_ref = trim (falsy ref []) in
      let raw = trim (falsy token []) in
      if is_empty public_ref || is_empty raw
      then err (bad_request "Token reference and token are required.")
      else elim (find (λ r. text_eq r.public_ref public_ref) s.tokens) [
        | none ↦ err (not_found "Account action token not found.")
        | some record_ ↦ check_record ty raw now s record_
      ]

  -- `consume`
  unfoldable pub consume : TokenType → Option Text → Option Text → ℕ → Store → Outcome Store User
  unfolding resolve_valid_record consume_record
  consume ty ref token now s = elim (resolve_valid_record ty ref token now s) [
    | err e ↦ thrown e s
    | ok record_ ↦ consume_record record_ now s
  ]

  -- `validateActivation`
  unfoldable pub validate_activation : Option Text → Option Text → ℕ → Store → Result User
  unfolding resolve_valid_record
  validate_activation ref token now s = do
    record_ ← resolve_valid_record account_activation ref token now s
    ok (s.users record_.user_id)
