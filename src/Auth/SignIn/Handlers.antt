-- ===== src/Auth/SignIn/Handlers.antt =====
-- `login`, `activate`, `forgotPassword` and `resetPassword` of backend/src/auth/auth.service.ts. Audit
-- rows, diagnostics and the user's data in the answers are left out. One reading of the clock serves a
-- request.
use proj_track_official.Auth.Refresh.{TokenService}
use proj_track_official.Prelude.{
  ℕ, Bool, true, false, ◌&&◌, ◌||◌, not, Option, none, some, [], ◌∷◌, ◌++◌, find, if◌then◌else◌,
}
use proj_track_official.Prelude.Text.{
  Text, codes, text_eq, is_empty, trim, nullish, CaseTable, to_lower, to_upper,
}
use proj_track_official.Prelude.Outcome.{
  bad_request, unauthorized, done, thrown, Handler, ◌>>=◌, ◌>>◌, get, modify, require, throw,
  return, lift, transaction,
}
use proj_track_official.Auth.User.{
  Role, admin, User, active, is_active, is_pending_setup, can_send_recovery,
}
use proj_track_official.Auth.Password.{Scrypt, hash, compare, assert_strong_password}
use proj_track_official.Auth.Throttle.{
  Action, login, forgot_password, reset_password, Env, get_config, build_key, assert_not_blocked,
  record_failure, reset,
}
use proj_track_official.Auth.Tokens.{
  Crypto, Fresh, Issued, account_activation, password_reset, consume, issue_password_reset,
}
use proj_track_official.Auth.Sessions.{create_refresh_session}
use proj_track_official.Auth.SignIn.{
  Account, Db, on_links, on_sessions, on_limits, change_limits, same_role, role_text, set_password,
  revoke_sessions,
}

pub record Attempt : Type 0 where
  pub identifier : Text
  pub password : Text
  pub role : Role
  pub remember : Bool

-- The new password of a request, with the link's reference and token.
pub record Change : Type 0 where
  pub password : Text
  pub confirm : Text
  pub ref : Option Text
  pub token : Option Text

module _ ⦃t : CaseTable⦄ ⦃scrypt : Scrypt⦄ ⦃crypto : Crypto⦄ ⦃service : TokenService⦄ (env : Env)
    (now : ℕ) where
  abbrev pub guard : Action → Text → Handler Db (Unit {0})
  guard action key = on_limits (assert_not_blocked (get_config env action) action key now now)

  abbrev pub fail : Action → Text → Db → Db
  fail action key = change_limits (record_failure (get_config env action) action key now)

  -- `equals: …, mode: 'insensitive'`
  abbrev pub is_numbered : Text → Option Text → Bool
  is_numbered wanted none = false
  is_numbered wanted (some number) = text_eq (to_lower number) (to_lower wanted)

  -- `findByLoginIdentifier`
  abbrev pub answers_to : Text → Role → Account → Bool
  answers_to identifier role a =
      same_role a.user.role role
      && (text_eq a.user.email (to_lower (trim identifier))
          || (not (same_role role admin) && is_numbered (trim identifier) a.number))

  abbrev pub find_by_login : Text → Role → Db → Option Account
  find_by_login identifier role db =
      if is_empty (trim identifier) then none else find (answers_to identifier role) db.accounts

  -- Is this an account with this role and password?
  abbrev pub is_known : Attempt → Option Account → Bool
  is_known body none = false
  is_known body (some a) = same_role a.user.role body.role && compare body.password a.password_hash

  -- `login`, after the first refusal
  unfoldable pub open_session : Text → Text → Attempt → Option Account → Handler Db Text
  open_session key session_id body none =
      throw (unauthorized "Invalid credentials or role mismatch.")
  open_session key session_id body (some a) = do
    if_active (is_active a.user.status)
    modify (change_limits (reset login key))
    on_sessions (create_refresh_session a.user session_id body.remember now)
    where
      if_active : Bool → Handler Db (Unit {0})
      if_active true = return tt
      if_active false = modify (fail login key) >> throw (unauthorized "Account is not active.")

  -- The key of the failures of a sign-in.
  abbrev pub login_key : Attempt → Option Text → Text
  login_key body ip =
      build_key login (some (role_text body.role ++ (codes ":" ++ trim body.identifier))) ip

  -- `login`, after the throttle
  unfoldable pub check_credentials : Text → Text → Attempt → Option Account → Handler Db Text
  unfolding open_session
  check_credentials key session_id body found =
      if is_known body found
      then open_session key session_id body found
      else (modify (fail login key) >> throw (unauthorized "Invalid credentials or role mismatch."))

  -- `login`
  unfoldable pub sign_in : Attempt → Option Text → Text → Handler Db Text
  unfolding check_credentials
  sign_in body ip session_id = do
    guard login (login_key body ip)
    db ← get
    check_credentials (login_key body ip) session_id body
        (find_by_login (trim body.identifier) body.role db)

  -- `activate`
  unfoldable pub activate : Change → Text → Handler Db (Unit {0})
  unfolding revoke_sessions
  activate body salt = do
    require (text_eq body.password body.confirm) (bad_request "Passwords do not match.")
    strong ← lift (assert_strong_password body.password)
    transaction (do
      user ← on_links (consume account_activation body.ref body.token now)
      modify (set_password user.id (hash salt body.password) (some active))
      modify (revoke_sessions user.id now))

  -- The transaction of `resetPassword`.
  unfoldable pub reset_by_link : Change → Text → Handler Db (Unit {0})
  unfolding revoke_sessions
  reset_by_link body salt = transaction (do
    user ← on_links (consume password_reset body.ref body.token now)
    modify (
        set_password user.id (hash salt body.password)
          (if is_pending_setup user.status then some active else none))
    modify (revoke_sessions user.id now))

  -- `try { … } catch (error) { change; throw error; }`
  abbrev pub on_error : {A : Type 0} → (Db → Db) → Handler Db A → Handler Db A
  on_error change m db = elim (m db) [
    | done a db' ↦ done a db'
    | thrown e db' ↦ thrown e (change db')
  ]

  -- `resetPassword`
  unfoldable pub reset_password_by_link : Change → Option Text → Text → Handler Db (Unit {0})
  unfolding reset_by_link
  reset_password_by_link body ip salt = do
    let key = build_key reset_password body.ref ip
    guard reset_password key
    on_error (fail reset_password key)
        (require (text_eq body.password body.confirm) (bad_request "Passwords do not match."))
    strong ← lift (assert_strong_password body.password)
    on_error (fail reset_password key) (reset_by_link body salt)
    modify (change_limits (reset reset_password key))

  -- `queuePasswordReset`
  abbrev pub send_letter : Text → Issued → Db → Db
  send_letter to issued db = record db {
    letters = db.letters ++ record { to = to; ref = issued.public_ref; token = issued.token } ∷ [];
  }

  -- May the account that was found be sent a link?
  abbrev pub is_recoverable : Text → Option Account → Option User
  is_recoverable role none = none
  is_recoverable role (some a) =
      if (is_empty role || text_eq (role_text a.user.role) role)
        && not (is_pending_setup a.user.status)
        && is_active a.user.status
        && can_send_recovery a.user.status
      then some a.user
      else none

  -- `forgotPassword`, from the lookup on
  unfoldable pub send_link : Fresh → Option User → Handler Db (Unit {0})
  send_link fresh none = return tt
  send_link fresh (some user) = do
    issued ← on_links (issue_password_reset fresh user.id now now)
    modify (send_letter user.email issued)

  -- `forgotPassword`
  unfoldable pub request_reset :
      Option Text → Option Text → Option Text → Fresh → Handler Db (Unit {0})
  unfolding send_link
  request_reset email role ip fresh = do
    let address = to_lower (trim (nullish email []))
    let key = build_key forgot_password (some address) ip
    guard forgot_password key
    modify (fail forgot_password key)
    db ← get
    send_link fresh (
        is_recoverable (to_upper (trim (nullish role [])))
          (find (λ (a : Account). text_eq a.user.email (to_lower address)) db.accounts))
