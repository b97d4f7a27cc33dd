-- ===== src/Auth/Sessions.antt =====
-- Refresh sessions: backend/src/auth/auth-session.service.ts. Their tokens are those of Auth/Refresh; a new session id is drawn by the caller.
pub mod Rotation
pub mod Reuse
pub mod Handover
pub mod Revocation
mod Tests
use proj_track_official.Prelude.{
  ℕ, ◌+◌, Bool, true, false, ◌&&◌, ◌||◌, not, Option, none, some, List, [], ◌∷◌, ◌++◌, ◌==◌, ltb,
  leb, if◌then◌else◌, is_some, find, count,
}
use proj_track_official.Prelude.Text.{Text, text_eq, is_empty}
use proj_track_official.Prelude.Table.{update_many}
use proj_track_official.Prelude.Outcome.{Error, unauthorized, Outcome, done, thrown}
use proj_track_official.Auth.Refresh.{Payload, TokenService, verify_refresh, create_refresh}
use proj_track_official.Auth.User.{User, is_active}

pub record Session : Type 0 where
  pub id : Text
  pub user_id : Text
  pub token_hash : Text
  pub expires_at : ℕ
  pub revoked_at : Option ℕ
  pub last_used_at : Option ℕ
  pub replaced_by : Option Text

pub record Store : Type 0 where
  pub sessions : List Session
  -- `userRepository.findById`
  pub users : Text → Option User

abbrev pub is_unrevoked : Session → Bool
is_unrevoked r = not (is_some r.revoked_at)

-- The live sessions of a user.
abbrev pub is_live_of : Text → Session → Bool
is_live_of user_id r = text_eq r.user_id user_id && is_unrevoked r

abbrev pub close : ℕ → Session → Session
close now r = record r { revoked_at = some now; last_used_at = some now }

-- `revokeAllForUser`
unfoldable pub revoke_all_for_user : Text → ℕ → Store → Store
revoke_all_for_user user_id now s = record s {
  sessions = update_many (is_live_of user_id) (close now) s.sessions;
}

-- What the checks hand to the commit.
pub record Ticket : Type 0 where
  pub session : Session
  pub user : User
  pub user_id : Text
  pub token_hash : Text
  pub now : ℕ
  pub ttl_ms : ℕ
  pub remember : Bool

pub record Rotated : Type 0 where
  pub user : User
  pub refresh_token : Text

module _ ⦃service : TokenService⦄ where
  abbrev pub ttl_of : Bool → ℕ
  ttl_of remember = if remember then service.remember_refresh_ttl_ms else service.refresh_ttl_ms

  -- `createRefreshSession`
  unfoldable pub create_refresh_session : User → Text → Bool → ℕ → Store → Outcome Store Text
  create_refresh_session user session_id remember now s =
      let token = create_refresh now user session_id (ttl_of remember) remember in
      done token (record s {
        sessions =
            s.sessions
            ++ (record {
              id = session_id;
              user_id = user.id;
              token_hash = service.hash_token token;
              expires_at = now + ttl_of remember;
              revoked_at = none;
              last_used_at = some now;
              replaced_by = none;
            })
              ∷ [];
      })

  -- The checks of `rotateRefreshSession` on the session's owner.
  check_user : Session → Text → Text → ℕ → Bool → Option User → Store → Outcome Store Ticket
  check_user session user_id token_hash now remember none s =
      thrown (unauthorized "User not found or inactive.")
        (revoke_all_for_user session.user_id now s)
  check_user session user_id token_hash now remember (some user) s =
      if is_active user.status
      then done
          (record {
            session = session;
            user = user;
            user_id = user_id;
            token_hash = token_hash;
            now = now;
            ttl_ms = ttl_of remember;
            remember = remember;
          })
          s
      else thrown (unauthorized "User not found or inactive.")
          (revoke_all_for_user session.user_id now s)

  -- Its checks on the session that the token names.
  check_session : Payload → Text → ℕ → Option Session → Store → Outcome Store Ticket
  unfolding check_user revoke_all_for_user
  check_session payload token_hash now none s = thrown (unauthorized "Refresh session not found.") s
  check_session payload token_hash now (some session) s =
      if not (text_eq session.user_id payload.sub)
      then thrown (unauthorized "Refresh session not found.") s
      else if is_some session.revoked_at
      then thrown (unauthorized "Refresh token has already been rotated or revoked.")
          (if is_some session.replaced_by then revoke_all_for_user session.user_id now s else s)
      else if leb session.expires_at now
      then thrown (unauthorized "Refresh token has expired.") (record s {
        sessions = update_many (λ r. text_eq r.id session.id) (close now) s.sessions;
      })
      else if not (text_eq session.token_hash token_hash)
      then thrown (unauthorized "Refresh token mismatch detected.")
          (revoke_all_for_user session.user_id now s)
      else check_user session payload.sub token_hash now payload.remember (s.users session.user_id)
          s

  -- `rotateRefreshSession` up to its transaction
  unfoldable pub check_refresh : Text → ℕ → Store → Outcome Store Ticket
  unfolding check_session
  check_refresh token now s = elim (verify_refresh now token) [
    | none ↦ thrown (unauthorized "Invalid refresh token.") s
    | some payload ↦
        if is_empty payload.sub || is_empty payload.sid
        then thrown (unauthorized "Invalid refresh token.") s
        else check_session payload (service.hash_token token) now
            (find (λ r. text_eq r.id payload.sid) s.sessions) s
  ]

  -- The `where` of the transaction's update.
  abbrev pub is_consumable : Ticket → Session → Bool
  is_consumable k r =
      text_eq r.id k.session.id
      && text_eq r.user_id k.user_id
      && text_eq r.token_hash k.token_hash
      && is_unrevoked r
      && ltb k.now r.expires_at

  abbrev pub replace : ℕ → Text → Session → Session
  replace now next r = record r {
    revoked_at = some now;
    last_used_at = some now;
    replaced_by = some next;
  }

  -- The row that takes the place of the consumed one; its token's hash is given.
  abbrev pub next_session : Ticket → Text → Text → Session
  next_session k next_id next_hash = record {
    id = next_id;
    user_id = k.user.id;
    token_hash = next_hash;
    expires_at = k.now + k.ttl_ms;
    revoked_at = none;
    last_used_at = some k.now;
    replaced_by = none;
  }

  -- The other branch: somebody else consumed the session first.
  lost_race : Ticket → Option Session → Store → Store
  lost_race k none s = s
  lost_race k (some current) s =
      if is_some current.replaced_by
      then record s { sessions = update_many (is_live_of current.user_id) (close k.now) s.sessions }
      else s

  -- The transaction of `rotateRefreshSession`, and what follows it. Other requests may have written
  -- since the checks. The update that changed no row leaves the rows as they were.
  unfoldable pub commit_rotation : Ticket → Text → ℕ → Store → Outcome Store Rotated
  unfolding lost_race
  commit_rotation k next_id at s =
      let next_token = create_refresh at k.user next_id k.ttl_ms k.remember in
      let consumed = update_many (is_consumable k) (replace k.now next_id) s.sessions in
      if count (is_consumable k) s.sessions == 1
      then done (record { user = k.user; refresh_token = next_token })
          (record s {
            sessions = consumed ++ next_session k next_id (service.hash_token next_token) ∷ [];
          })
      else thrown (unauthorized "Refresh token has already been rotated or revoked.") (
          lost_race k (find (λ r. text_eq r.id k.session.id) consumed)
            (record s { sessions = consumed }))

  -- `rotateRefreshSession` with nothing between its two parts
  unfoldable pub rotate : Text → Text → ℕ → ℕ → Store → Outcome Store Rotated
  unfolding check_refresh commit_rotation
  rotate token next_id now at s = elim (check_refresh token now s) [
    | thrown e s' ↦ thrown e s'
    | done k s' ↦ commit_rotation k next_id at s'
  ]

  abbrev pub is_named : Payload → Text → Session → Bool
  is_named payload token_hash r =
      text_eq r.id payload.sid && text_eq r.token_hash token_hash && is_unrevoked r

  -- `revokeRefreshSession` on a token that is given; the empty token is the early return.
  unfoldable pub revoke_refresh_session : Text → ℕ → Store → Outcome Store Bool
  revoke_refresh_session token now s =
      if is_empty token then done false s else elim (verify_refresh now token) [
        | none ↦ done false s
        | some payload ↦
            if is_empty payload.sid
            then done false s
            else let rows =
                update_many (is_named payload (service.hash_token token)) (close now) s.sessions in
              done (ltb 0 (count (is_named payload (service.hash_token token)) s.sessions))
                (record s { sessions = rows })
      ]
