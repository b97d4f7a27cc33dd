-- ===== src/Auth/Sessions/Handover.antt =====
-- The token that a rotation hands out, at the next one: `rotateRefreshSession`.
use proj_track_official.Prelude.{
  ℕ, ◌+◌, ◌≤◌, ◌<◌, ◌≡◌, refl, true, false, none, some, find, arith, ◌||◌,
}
use proj_track_official.Prelude.Text.{Text, text_eq, text_eq_refl, is_empty}
use proj_track_official.Prelude.Table.{update_many, find-append, find-update_many-none}
use proj_track_official.Prelude.Outcome.{done, succeeded}
use proj_track_official.Auth.User.{User, is_active}
use proj_track_official.Auth.Refresh.{
  Payload, TokenService, seconds, verify_refresh, create_refresh,
}
use proj_track_official.Auth.Refresh.Laws.{Signs, verify_refresh-create_refresh}
use proj_track_official.Auth.Sessions.{
  Session, Store, Ticket, Rotated, check_user, check_session, check_refresh, is_consumable, replace,
  next_session, commit_rotation,
}
use proj_track_official.Auth.Sessions.Rotation.{committed, commit_inv}

module _ ⦃service : TokenService⦄ where
  check_session_live :
      (p : Payload) (token_hash : Text) (now : ℕ) (x : Session) (u : User) (s : Store)
      → text_eq x.user_id p.sub ≡ true
      → x.revoked_at ≡ none
      → now < x.expires_at
      → text_eq x.token_hash token_hash ≡ true
      → s.users x.user_id ≡ some u
      → is_active u.status ≡ true
      → succeeded (check_session p token_hash now (some x) s) ≡ true
  unfolding check_session check_user
  check_session_live p token_hash now x u s own live early same known active = ground arith

  check_refresh_named :
      (token : Text) (now : ℕ) (s : Store) (p : Payload) (x : Session)
      → verify_refresh now token ≡ some p
      → (is_empty p.sub || is_empty p.sid) ≡ false
      → find (λ r. text_eq r.id p.sid) s.sessions ≡ some x
      → check_refresh token now s ≡ check_session p (service.hash_token token) now (some x) s
  unfolding check_refresh
  check_refresh_named token now s p x verified solid found =
      rw (verified, check_refresh) (rw (solid, found))

  -- The token that a commit hands out passes the checks of the next rotation, from a minute before the
  -- second it was made in up to the second in which it expires and while the new session lasts, if the
  -- user is there and active, the new id was new, and what is signed is read back as it was written.
  pub commit-check_refresh :
      (k : Ticket) (next_id : Text) (at now' : ℕ) (s s' : Store) (r : Rotated)
      → Signs
      → seconds at ≤ seconds now' + 60
      → seconds now' < seconds at + seconds k.ttl_ms
      → find (λ y. text_eq y.id next_id) s.sessions ≡ none
      → is_empty next_id ≡ false
      → is_empty k.user.id ≡ false
      → s.users k.user.id ≡ some k.user
      → is_active k.user.status ≡ true
      → now' < k.now + k.ttl_ms
      → commit_rotation k next_id at s ≡ done r s'
      → succeeded (check_refresh r.refresh_token now' s') ≡ true
  unfolding commit_rotation
  commit-check_refresh k next_id at now' s s' r signs made unexpired new solid_id solid_user known
        active early h =
      let (one, moved) = commit_inv k next_id at s h in
      let token = create_refresh at k.user next_id k.ttl_ms k.remember in
      let row = next_session k next_id (service.hash_token token) in
      let p : Payload = record { sub = k.user.id; sid = next_id; remember = k.remember } in
      let handed : r.refresh_token ≡ token = ground arith in
      let by_id = λ (y : Session). text_eq y.id next_id in
      let found =
        find-append by_id (update_many (is_consumable k) (replace k.now next_id) s.sessions) row
          (find-update_many-none by_id (is_consumable k) (replace k.now next_id) (λ y. refl)
            s.sessions new)
          (text_eq_refl next_id) in
      let verified =
        verify_refresh-create_refresh at now' k.user next_id k.ttl_ms k.remember signs made
          unexpired in
      rw (handed, moved)
        (rw
          (check_refresh_named token now' (committed k next_id at s) p row verified (ground arith)
            found)
          (check_session_live p (service.hash_token token) now' row k.user
            (committed k next_id at s) (text_eq_refl k.user.id) refl early
            (text_eq_refl (service.hash_token token)) known active))
