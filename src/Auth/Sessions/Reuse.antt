-- ===== src/Auth/Sessions/Reuse.antt =====
-- A second use of a refresh token: `rotateRefreshSession` of auth-session.service.ts.
use proj_track_official.Auth.Refresh.{Payload, TokenService, verify_refresh}
use proj_track_official.Prelude.{
  ℕ, ◌≡◌, refl, inl, inr, true, false, Option, none, some, is_some, find, find_sound, count, sym,
  arith, Bool-cases, Option-cases, subst, ◌||◌,
}
use proj_track_official.Prelude.Text.{Text, text_eq, text_eq_iff, is_empty}
use proj_track_official.Prelude.Outcome.{Error, done, thrown, succeeded, final, Outcome-cases}
use proj_track_official.Auth.Sessions.{
  Session, Store, Ticket, Rotated, check_user, check_session, check_refresh, is_consumable, replace,
  commit_rotation, rotate,
}
use proj_track_official.Auth.Sessions.Rotation.{
  HasUniqueIds, IsSignedOut, close-IsSignedOut, committed, commit_inv, consumed_row,
}

module _ ⦃service : TokenService⦄ where
  check_replaced :
      (payload : Payload) (token_hash : Text) (now : ℕ) (x : Session) (s : Store)
      → text_eq x.user_id payload.sub ≡ true
      → is_some x.revoked_at ≡ true
      → is_some x.replaced_by ≡ true
      → (succeeded (check_session payload token_hash now (some x) s) ≡ false)
        × IsSignedOut x.user_id (final (check_session payload token_hash now (some x) s))
  unfolding check_session
  check_replaced payload token_hash now x s own gone next =
      (ground arith, rw (own, gone, next) (close-IsSignedOut x.user_id now s.sessions))

  check_session_inv :
      (payload : Payload) (token_hash : Text) (now : ℕ) (o : Option Session) (s : Store)
      {k : Ticket} {s' : Store}
      → check_session payload token_hash now o s ≡ done k s'
      → (o ≡ some k.session) × (s' ≡ s) × (text_eq k.session.user_id payload.sub ≡ true)
  unfolding check_session check_user
  check_session_inv payload token_hash now none s h = ground arith
  check_session_inv payload token_hash now (some x) s h = ground arith

  check_refresh_inv :
      (token : Text) (now : ℕ) (s : Store) {k : Ticket} {s' : Store}
      → check_refresh token now s ≡ done k s'
      → (p : Payload) × (verify_refresh now token ≡ some p)
        × ((is_empty p.sub || is_empty p.sid) ≡ false)
        × (find (λ r. text_eq r.id p.sid) s.sessions ≡ some k.session)
        × (s' ≡ s)
        × (text_eq k.session.user_id p.sub ≡ true)
  unfolding check_refresh
  check_refresh_inv token now s {k} {s'} h = elim (Option-cases (verify_refresh now token)) [
    | inl bad ↦ absurd (ground arith)
    | inr (p, good) ↦ elim (Bool-cases (is_empty p.sub || is_empty p.sid)) [
      | inl hollow ↦ absurd (ground arith)
      | inr solid ↦
          let (found, same, own) =
            check_session_inv p (service.hash_token token) now
              (find (λ r. text_eq r.id p.sid) s.sessions) s {k = k} {s' = s'} (ground arith) in
          (p, good, solid, found, same, own)
    ]
  ]

  check_refresh_replaced :
      (token : Text) (now : ℕ) (s : Store) (p : Payload) (x : Session)
      → verify_refresh now token ≡ some p
      → (is_empty p.sub || is_empty p.sid) ≡ false
      → find (λ r. text_eq r.id p.sid) s.sessions ≡ some x
      → text_eq x.user_id p.sub ≡ true
      → is_some x.revoked_at ≡ true
      → is_some x.replaced_by ≡ true
      → (e : Error) × (s' : Store) × (check_refresh token now s ≡ thrown e s')
        × IsSignedOut x.user_id s'
  unfolding check_refresh
  check_refresh_replaced token now s p x verified solid found own gone next =
      let (bad, out) = check_replaced p (service.hash_token token) now x s own gone next in
      elim (Outcome-cases (check_session p (service.hash_token token) now (some x) s)) [
        | inl (k, s', e) ↦ absurd (ground arith)
        | inr (err, s', e) ↦
            (err, s', rw (verified, check_refresh) (rw (solid, found) e), rw e at out)
      ]

  rotate_thrown :
      (token next_id : Text) (now at : ℕ) (s : Store) {e : Error} {s' : Store}
      → check_refresh token now s ≡ thrown e s'
      → rotate token next_id now at s ≡ thrown e s'
  unfolding rotate
  rotate_thrown token next_id now at s h = rw (h, rotate)

  rotate_inv :
      (token next_id : Text) (now at : ℕ) (s : Store) {r : Rotated} {s' : Store}
      → rotate token next_id now at s ≡ done r s'
      → (k : Ticket) × (s₁ : Store) × (check_refresh token now s ≡ done k s₁)
        × (commit_rotation k next_id at s₁ ≡ done r s')
  unfolding rotate
  rotate_inv token next_id now at s h = elim (Outcome-cases (check_refresh token now s)) [
    | inl (k, s₁, e) ↦ (k, s₁, e, ground arith)
    | inr (err, s₁, e) ↦ absurd (ground arith)
  ]

  reuse_after_commit :
      (token next_id next_id' : Text) (at now' at' : ℕ) (s : Store) (k : Ticket) (p : Payload)
      → HasUniqueIds s
      → verify_refresh now' token ≡ some p
      → (is_empty p.sub || is_empty p.sid) ≡ false
      → find (λ r. text_eq r.id p.sid) s.sessions ≡ some k.session
      → k.session.id ≡ p.sid
      → text_eq k.session.user_id p.sub ≡ true
      → count (is_consumable k) s.sessions ≡ 1
      → (succeeded (rotate token next_id' now' at' (committed k next_id at s)) ≡ false)
        × IsSignedOut p.sub (final (rotate token next_id' now' at' (committed k next_id at s)))
  reuse_after_commit token next_id next_id' at now' at' s k p unique v solid found sid own one =
      let found_k : find (λ r. text_eq r.id k.session.id) s.sessions ≡ some k.session =
        subst (λ y. find (λ (r : Session). text_eq r.id y) s.sessions ≡ some k.session) (sym sid)
          found in
      let (hit, row) = consumed_row k next_id at s {x = k.session} unique one found_k in
      let row_p =
        subst
          (λ (y : Text).
            find (λ z. text_eq z.id y) (committed k next_id at s).sessions
            ≡ some (replace k.now next_id k.session))
          sid row in
      let (e, s₂, refused, out) =
        check_refresh_replaced token now' (committed k next_id at s) p
          (replace k.now next_id k.session) v solid row_p own refl refl in
      rw (rotate_thrown token next_id' now' at' (committed k next_id at s) refused) (
        refl,
        subst (λ (u : Text). IsSignedOut u s₂) ((text_eq_iff k.session.user_id p.sub).0 own) out,
      )

  -- A refresh token is good for one rotation: a second use of it, at any later time at which it still
  -- verifies, is refused and ends every session of its user.
  pub rotate_once :
      (token next_id next_id' : Text) (now at now' at' : ℕ) (s s' : Store) (r : Rotated)
      (p : Payload)
      → HasUniqueIds s
      → verify_refresh now token ≡ some p
      → verify_refresh now' token ≡ some p
      → rotate token next_id now at s ≡ done r s'
      → (succeeded (rotate token next_id' now' at' s') ≡ false)
        × IsSignedOut p.sub (final (rotate token next_id' now' at' s'))
  rotate_once token next_id next_id' now at now' at' s s' r p unique v v' h =
      let (k, s₁, checked, committed_) = rotate_inv token next_id now at s h in
      let (p₁, v₁, solid, found, same, own) = check_refresh_inv token now s checked in
      let is_p : p₁ ≡ p = ground arith in
      let found_p : find (λ r. text_eq r.id p.sid) s.sessions ≡ some k.session =
        subst (λ (q : Payload). find (λ r. text_eq r.id q.sid) s.sessions ≡ some k.session) is_p
          found in
      let sid : k.session.id ≡ p.sid =
        (text_eq_iff k.session.id p.sid).0
          (find_sound (λ r. text_eq r.id p.sid) s.sessions found_p) in
      let (one, moved) =
        commit_inv k next_id at s
          (subst (λ (t : Store). commit_rotation k next_id at t ≡ done r s') same committed_) in
      subst
        (λ (t : Store).
          (succeeded (rotate token next_id' now' at' t) ≡ false)
          × IsSignedOut p.sub (final (rotate token next_id' now' at' t)))
        (sym moved)
        (reuse_after_commit token next_id next_id' at now' at' s k p unique v'
          (subst (λ (q : Payload). (is_empty q.sub || is_empty q.sid) ≡ false) is_p solid) found_p
          sid (subst (λ (q : Payload). text_eq k.session.user_id q.sub ≡ true) is_p own) one)
