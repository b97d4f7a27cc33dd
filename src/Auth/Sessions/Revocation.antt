-- ===== src/Auth/Sessions/Revocation.antt =====
-- Ending sessions: all of a user's, and the one of a token.
use proj_track_official.Auth.Refresh.{Payload, TokenService, verify_refresh}
use proj_track_official.Prelude.{
  ℕ, ◌≡◌, refl, Bool, true, false, ◌&&◌, ◌||◌, some, find, count, arith, Option-cases, Bool-cases,
  inl, inr, find_sound,
}
use proj_track_official.Prelude.Text.{Text, text_eq, text_eq_iff, is_empty}
use proj_track_official.Prelude.Table.{
  update_many, count-update_many, find-update_many, find-update_many-none,
}
use proj_track_official.Prelude.Outcome.{done, succeeded}
use proj_track_official.Auth.Sessions.{
  Session, Store, is_live_of, close, revoke_all_for_user, check_session, check_refresh, is_named,
  revoke_refresh_session, is_unrevoked,
}
use proj_track_official.Auth.Sessions.Rotation.{IsSignedOut, close-IsSignedOut}

live_is_own :
    (a b : Text) (x : Session)
    → is_live_of a x ≡ true
    → text_eq a b ≡ false
    → is_live_of b x ≡ false
live_is_own a b x h other =
    ground (arith, text_eq_iff x.user_id a, text_eq_iff x.user_id b, text_eq_iff a b)

-- Revoking all sessions of a user leaves none of them live, and those of every other user as they
-- were.
pub revoke_all_for_user-IsSignedOut :
    (user_id other : Text) (now : ℕ) (s : Store)
    → text_eq user_id other ≡ false
    → IsSignedOut user_id (revoke_all_for_user user_id now s)
      × (count (is_live_of other) (revoke_all_for_user user_id now s).sessions
          ≡ count (is_live_of other) s.sessions)
unfolding revoke_all_for_user
revoke_all_for_user-IsSignedOut user_id other now s h = (
  close-IsSignedOut user_id now s.sessions,
  count-update_many (is_live_of other) (is_live_of user_id) (close now)
      (λ x e. ground (arith, live_is_own user_id other x e h)) s.sessions,
)

module _ ⦃service : TokenService⦄ where
  check_session_closed :
      (p : Payload) (token_hash : Text) (now : ℕ) (x : Session) (s : Store)
      → (text_eq x.token_hash token_hash && is_unrevoked x) ≡ false
      → succeeded (check_session p token_hash now (some x) s) ≡ false
  unfolding check_session
  check_session_closed p token_hash now x s h = ground arith

  -- After a logout the token of that session is refused at every later refresh at which it verifies.
  pub revoke_refresh_session-check_refresh :
      (token : Text) (now now' : ℕ) (s : Store) (p : Payload) (b : Bool) (s' : Store)
      → is_empty token ≡ false
      → verify_refresh now token ≡ some p
      → verify_refresh now' token ≡ some p
      → revoke_refresh_session token now s ≡ done b s'
      → succeeded (check_refresh token now' s') ≡ false
  unfolding revoke_refresh_session check_refresh
  revoke_refresh_session-check_refresh token now now' s p b s' given v v' h =
      elim (Bool-cases (is_empty p.sub || is_empty p.sid)) [
        | inl hollow ↦ rw (v', check_refresh) (rw hollow)
        | inr solid ↦
            let hash = service.hash_token token in
            let sid_solid : is_empty p.sid ≡ false = ground arith in
            let moved : s'
                ≡ record s { sessions = update_many (is_named p hash) (close now) s.sessions } =
              ground arith in
            let by_id = λ (r : Session). text_eq r.id p.sid in
            elim (Option-cases (find by_id s.sessions)) [
              | inl missing ↦
                  let still =
                    find-update_many-none by_id (is_named p hash) (close now) (λ x. refl) s.sessions
                      missing in
                  rw (v', check_refresh)
                    (rw solid (rw moved (rw still (unfold check_session in refl))))
              | inr (x, found) ↦
                  let still =
                    find-update_many by_id (is_named p hash) (close now) (λ x. refl) s.sessions
                      found in
                  let named = find_sound by_id s.sessions found in
                  rw (v', check_refresh)
                    (rw solid
                      (rw moved (rw still (check_session_closed p hash now' _ _ (ground arith)))))
            ]
      ]
