-- ===== src/Auth/SignIn/Laws.antt =====
-- What signing in, activating and recovering establish.
use proj_track_official.Auth.Refresh.{TokenService, create_refresh}
use proj_track_official.Prelude.{
  ℕ, ◌≡◌, refl, sym, ◌∙◌, ap, subst, Bool, true, false, Option, none, some, [], ◌∷◌, ◌++◌, ◌+◌,
  find, count, arith, Option-cases, Bool-cases, inl, inr, find_sound, ◌==◌,
}
use proj_track_official.Prelude.Text.{Text, text_eq, text_eq_iff, trim, falsy, CaseTable}
use proj_track_official.Prelude.Table.{find-update_one}
use proj_track_official.Prelude.Outcome.{done, succeeded, final, Outcome-cases, Result-cases}
use proj_track_official.Auth.User.{User, active, is_active}
use proj_track_official.Auth.Password.{Scrypt, hash, compare, assert_strong_password}
use proj_track_official.Auth.Throttle.{
  login, reset_password, Env, get_config, build_key, assert_not_blocked,
}
use proj_track_official.Auth.Tokens.{
  Crypto, Token, TokenType, account_activation, password_reset, consume, resolve_valid_record,
  consume_record, is_consumable,
}
use proj_track_official.Auth.Tokens.Once.{resolve_sound}
use proj_track_official.Auth.Tokens
use proj_track_official.Auth.Sessions
use proj_track_official.Auth.Sessions.Rotation.{close-IsSignedOut}
use proj_track_official.Auth.Sessions.{Session, is_live_of}
use proj_track_official.Auth.SignIn.{
  Account, Db, same_role, user_of, find_account, link_view, set_password, revoke_sessions,
}
use proj_track_official.Auth.SignIn.Handlers.{
  Attempt, Change, activate, reset_by_link, reset_password_by_link, sign_in, is_known,
  find_by_login, check_credentials, open_session, login_key,
}

-- The link that a reference leads to.
abbrev pub has_ref : Option Text → Token → Bool
has_ref ref r = text_eq r.public_ref (trim (falsy ref []))

module _ ⦃t : CaseTable⦄ ⦃scrypt : Scrypt⦄ ⦃crypto : Crypto⦄ ⦃service : TokenService⦄ (env : Env)
    (now : ℕ) where
  -- How long a session lasts, by whether the user asks to be remembered.
  abbrev pub lifetime : Bool → ℕ
  lifetime true = service.remember_refresh_ttl_ms
  lifetime false = service.refresh_ttl_ms

  consume-refuses_active :
      (ty : TokenType) (ref token : Option Text) (r : Token) (db : Db)
      → find (has_ref ref) db.tokens ≡ some r
      → is_active (user_of r.user_id db).status ≡ true
      → succeeded (consume ty ref token now (link_view db)) ≡ false
  unfolding consume
  consume-refuses_active ty ref token r db there on =
      elim (Result-cases (resolve_valid_record ty ref token now (link_view db))) [
        | inl (e, refused) ↦ ground arith
        | inr (r', taken) ↦
            let facts = resolve_sound ty ref token now (link_view db) taken in
            let same : r ≡ r' = some_injective (sym there ∙ facts.found) in
            let off : is_active (user_of r.user_id db).status ≡ false =
              subst (λ x. is_active (user_of x.user_id db).status ≡ false) (sym same)
                facts.not_active in
            absurd (ground arith)
      ]
    where
      some_injective : {a b : Token} → (some a ≡ some b) → a ≡ b
      some_injective h = cc

  reset_by_link-refuses_active :
      (body : Change) (salt : Text) (r : Token) (db : Db)
      → find (has_ref body.ref) db.tokens ≡ some r
      → is_active (user_of r.user_id db).status ≡ true
      → succeeded (reset_by_link env now body salt db) ≡ false
  unfolding reset_by_link
  reset_by_link-refuses_active body salt r db there on =
      let refused = consume-refuses_active password_reset body.ref body.token r db there on in
      elim (Outcome-cases (consume password_reset body.ref body.token now (link_view db))) [
        | inl (a, after, e) ↦ absurd (ground arith)
        | inr (e', after, e) ↦ ground arith
      ]

  -- A reset link never resets the password of an active account: whatever the link and its token are, the
  -- request is refused.
  pub reset_password_by_link-refuses_active :
      (body : Change) (ip : Option Text) (salt : Text) (r : Token) (db : Db)
      → find (has_ref body.ref) db.tokens ≡ some r
      → is_active (user_of r.user_id db).status ≡ true
      → succeeded (reset_password_by_link env now body ip salt db) ≡ false
  unfolding reset_password_by_link
  reset_password_by_link-refuses_active body ip salt r db there on =
      let key = build_key reset_password body.ref ip in
      elim (Outcome-cases
        (assert_not_blocked (get_config env reset_password) reset_password key now now db.limits)) [
          | inr (e', limits, e) ↦ ground arith
          | inl (a, limits, e) ↦
              let refused =
                reset_by_link-refuses_active body salt r (record db { limits = limits }) there on in
              elim (Result-cases (assert_strong_password body.password)) [
                | inl (e', weak) ↦ elim (Bool-cases (text_eq body.password body.confirm)) [
                  | inl same ↦ ground arith
                  | inr differ ↦ ground arith
                ]
                | inr (u, strong) ↦
                    elim (Outcome-cases
                      (reset_by_link env now body salt (record db { limits = limits }))) [
                        | inl (b, after, f) ↦ absurd (ground arith)
                        | inr (f', after, f) ↦
                            elim (Bool-cases (text_eq body.password body.confirm)) [
                              | inl same ↦ ground arith
                              | inr differ ↦ ground arith
                            ]
                      ]
              ]
        ]

  consume-user :
      (ty : TokenType) (ref token : Option Text) (r : Token) (u : User) (db : Db)
      (after : Tokens.Store)
      → find (has_ref ref) db.tokens ≡ some r
      → consume ty ref token now (link_view db) ≡ done u after
      → u ≡ user_of r.user_id db
  unfolding consume consume_record
  consume-user ty ref token r u db after there h =
      elim (Result-cases (resolve_valid_record ty ref token now (link_view db))) [
        | inl (e, refused) ↦ absurd (ground arith)
        | inr (r', taken) ↦
            let facts = resolve_sound ty ref token now (link_view db) taken in
            let same : some r ≡ some r' = sym there ∙ facts.found in
            elim (Bool-cases (count (is_consumable r'.id now) db.tokens == 1)) [
              | inr lost ↦ absurd (ground arith)
              | inl one ↦
                  let given : user_of r'.user_id db ≡ u = ground arith in
                  subst (λ o. elim o [ none ↦ Unit | some x ↦ u ≡ user_of x.user_id db ]) (sym same)
                    (sym given)
            ]
      ]

  -- What the transaction of `activate` writes, besides the link.
  activated : Text → Text → Db → Db
  activated id hashed db = revoke_sessions id now (set_password id hashed (some active) db)

  activated-active :
      (id hashed : Text) (a : Account) (db : Db)
      → find_account id db ≡ some a
      → (find_account id (activated id hashed db)
          ≡ some
              (record a { user = record a.user { status = active }; password_hash = some hashed }))
        × (count (is_live_of id) (activated id hashed db).sessions ≡ 0)
  unfolding activated revoke_sessions Sessions.revoke_all_for_user
  activated-active id hashed a db known = (
    find-update_one (λ (x : Account). text_eq x.user.id id)
        (λ x. record x { user = record x.user { status = active }; password_hash = some hashed })
        db.accounts known (find_sound (λ (x : Account). text_eq x.user.id id) db.accounts known),
    close-IsSignedOut id now db.sessions,
  )

  -- To activate an account by its link makes it active with the new password, and ends its sessions.
  pub activate-active :
      (body : Change) (salt : Text) (r : Token) (a : Account) (db db' : Db)
      → find (has_ref body.ref) db.tokens ≡ some r
      → find_account r.user_id db ≡ some a
      → activate env now body salt db ≡ done tt db'
      → (find_account r.user_id db'
          ≡ some (record a {
            user = record a.user { status = active };
            password_hash = some (hash salt body.password);
          }))
        × (count (is_live_of r.user_id) db'.sessions ≡ 0)
  unfolding activate activated
  activate-active body salt r a db db' there known h =
      let hashed = hash salt body.password in
      elim (Bool-cases (text_eq body.password body.confirm)) [
        | inr differ ↦ absurd (ground arith)
        | inl same ↦ elim (Result-cases (assert_strong_password body.password)) [
          | inl (e', weak) ↦ absurd (ground arith)
          | inr (v, strong) ↦
              elim (Outcome-cases
                (consume account_activation body.ref body.token now (link_view db))) [
                  | inr (e', after, e) ↦ absurd (ground arith)
                  | inl (u, after, e) ↦
                      let whose =
                        consume-user account_activation body.ref body.token r u db after there e in
                      let is_user : u ≡ a.user = whose ∙ rw (known, user_of) refl in
                      let is_id : u.id ≡ r.user_id =
                        ap (λ x. x.id) is_user
                        ∙ (text_eq_iff a.user.id r.user_id).0 (
                            find_sound (λ (x : Account). text_eq x.user.id r.user_id) db.accounts
                              known) in
                      let linked = record db { tokens = after.tokens } in
                      let run : activate env now body salt db
                          ≡ done tt (activated u.id hashed linked) =
                        ground arith in
                      let last : activated r.user_id hashed linked ≡ db' =
                        ap (λ i. activated i hashed linked) (sym is_id) ∙ ap final (sym run ∙ h) in
                      subst
                        (λ d.
                          (find_account r.user_id d
                            ≡ some (record a {
                              user = record a.user { status = active };
                              password_hash = some hashed;
                            }))
                          × (count (is_live_of r.user_id) d.sessions ≡ 0))
                        last (activated-active r.user_id hashed a linked known)
                ]
        ]
      ]

  -- Who is signed in is an active account that the identifier leads to, whose role is the one asked for
  -- and whose stored password the given one matches. What is handed out is a refresh token for that
  -- account and the new session's id, which lasts as the request to be remembered says; and one live session
  -- of that account with the hash of this token is added to the sessions.
  pub sign_in-is_known :
      (body : Attempt) (ip : Option Text) (session_id token : Text) (db db' : Db)
      → sign_in env now body ip session_id db ≡ done token db'
      → (a : Account) × (find_by_login env now (trim body.identifier) body.role db ≡ some a)
        × (same_role a.user.role body.role ≡ true)
        × (compare body.password a.password_hash ≡ true)
        × (is_active a.user.status ≡ true)
        × (token ≡ create_refresh now a.user session_id (lifetime body.remember) body.remember)
        × (db'.sessions
            ≡ db.sessions
              ++ record {
                id = session_id;
                user_id = a.user.id;
                token_hash = service.hash_token token;
                expires_at = now + lifetime body.remember;
                revoked_at = none;
                last_used_at = some now;
                replaced_by = none;
              }
                ∷ [])
  unfolding sign_in check_credentials open_session Sessions.create_refresh_session
  sign_in-is_known body ip session_id token db db' h =
      let key = login_key env now body ip in
      elim (Outcome-cases (assert_not_blocked (get_config env login) login key now now db.limits)) [
        | inr (e', limits, e) ↦ absurd (ground arith)
        | inl (u, limits, e) ↦
            elim (Option-cases (find_by_login env now (trim body.identifier) body.role db)) [
              | inl missing ↦ absurd (ground arith)
              | inr (a, hit) ↦ elim (Bool-cases (is_known env now body (some a))) [
                | inr unknown ↦ absurd (ground arith)
                | inl right ↦ elim (Bool-cases (is_active a.user.status)) [
                  | inr off ↦ absurd (ground arith)
                  | inl on ↦ (a, hit, ground arith, ground arith, on, ground arith, ground arith)
                ]
              ]
            ]
      ]
