-- ===== src/Auth/Sessions/Rotation.antt =====
-- Two requests that rotate one session at once.
use proj_track_official.Auth.Refresh.{TokenService, create_refresh}
use proj_track_official.Prelude.{
  ℕ, ◌≤◌, ◌≡◌, refl, inl, inr, Bool, true, false, some, List, [], ◌∷◌, ◌++◌, is_some, find,
  find_sound, count, arith, ◌∙◌, Bool-cases,
}
use proj_track_official.Prelude.Text.{Text, text_eq}
use proj_track_official.Prelude.Table.{
  update_many, count-append, count-after_update, count-update_many_zero, find-append_found,
  find-update_many, count_strict,
}
use proj_track_official.Prelude.Outcome.{done, succeeded, final}
use proj_track_official.Auth.Sessions.{
  Session, Store, is_live_of, close, Ticket, Rotated, is_consumable, replace, next_session,
  lost_race, commit_rotation,
}

-- The primary key: no two sessions have one id.
abbrev pub HasUniqueIds : Store → Type 0
HasUniqueIds s = (x : Text) → count (λ r. text_eq r.id x) s.sessions ≤ 1

-- No session of the user is live.
abbrev pub IsSignedOut : Text → Store → Type 0
IsSignedOut user_id s = count (is_live_of user_id) s.sessions ≡ 0

pub close-IsSignedOut :
    (user_id : Text) (now : ℕ) (rows : List Session)
    → count (is_live_of user_id) (update_many (is_live_of user_id) (close now) rows) ≡ 0
close-IsSignedOut user_id now rows =
    count-update_many_zero (is_live_of user_id) (is_live_of user_id) (close now)
      (λ x e. ground arith) (λ x e. e) rows

module _ ⦃service : TokenService⦄ where
  -- The store in which a commit that succeeds leaves the sessions.
  abbrev pub committed : Ticket → Text → ℕ → Store → Store
  committed k next_id at s = record s {
    sessions =
        update_many (is_consumable k) (replace k.now next_id) s.sessions
        ++ next_session k next_id
            (service.hash_token (create_refresh at k.user next_id k.ttl_ms k.remember))
          ∷ [];
  }

  pub commit_inv :
      (k : Ticket) (next_id : Text) (at : ℕ) (s : Store) {r : Rotated} {s' : Store}
      → commit_rotation k next_id at s ≡ done r s'
      → (count (is_consumable k) s.sessions ≡ 1) × (s' ≡ committed k next_id at s)
  unfolding commit_rotation
  commit_inv k next_id at s h = ground arith

  commit_lost :
      (k : Ticket) (next_id : Text) (at : ℕ) (s : Store)
      → count (is_consumable k) s.sessions ≡ 0
      → (succeeded (commit_rotation k next_id at s) ≡ false)
        × (final (commit_rotation k next_id at s)
            ≡ lost_race k
                (find
                  (λ r. text_eq r.id k.session.id)
                  (update_many (is_consumable k) (replace k.now next_id) s.sessions))
                (record s {
                  sessions = update_many (is_consumable k) (replace k.now next_id) s.sessions;
                }))
  unfolding commit_rotation
  commit_lost k next_id at s h = (rw (h, commit_rotation), rw (h, commit_rotation))

  lost_race_replaced :
      (k : Ticket) (current : Session) (s : Store)
      → is_some current.replaced_by ≡ true
      → IsSignedOut current.user_id (lost_race k (some current) s)
  unfolding lost_race
  lost_race_replaced k current s h = rw h (close-IsSignedOut current.user_id k.now s.sessions)

  -- The row of a session after the commit that consumed it.
  pub consumed_row :
      (k : Ticket) (next_id : Text) (at : ℕ) (s : Store) {x : Session}
      → HasUniqueIds s
      → count (is_consumable k) s.sessions ≡ 1
      → find (λ r. text_eq r.id k.session.id) s.sessions ≡ some x
      → (is_consumable k x ≡ true)
        × (find (λ r. text_eq r.id k.session.id) (committed k next_id at s).sessions
            ≡ some (replace k.now next_id x))
  consumed_row k next_id at s {x} unique one found =
      let by_id = λ (r : Session). text_eq r.id k.session.id in
      let moved =
        find-update_many by_id (is_consumable k) (replace k.now next_id) (λ y. refl) s.sessions
          found in
      elim (Bool-cases (is_consumable k x)) [
        | inl hit ↦ (
          hit,
          find-append_found by_id (update_many (is_consumable k) (replace k.now next_id) s.sessions)
              (next_session k next_id
                (service.hash_token (create_refresh at k.user next_id k.ttl_ms k.remember)))
              (rw hit at moved),
        )
        | inr miss ↦ absurd (
            omega (
              arith,
              one,
              unique k.session.id,
              count_strict (is_consumable k) by_id (λ y e. ground arith) by_id s.sessions found
                  (find_sound by_id s.sessions found) miss,
            ))
      ]

  none_left :
      (k k' : Ticket) (next_id : Text) (at : ℕ) (s : Store)
      → HasUniqueIds s
      → count (is_consumable k) s.sessions ≡ 1
      → k'.session.id ≡ k.session.id
      → text_eq next_id k.session.id ≡ false
      → count (is_consumable k') (committed k next_id at s).sessions ≡ 0
  none_left k k' next_id at s unique one same fresh =
      let other : text_eq next_id k'.session.id ≡ false = rw same fresh in
      let rows = update_many (is_consumable k) (replace k.now next_id) s.sessions in
      let row =
        next_session k next_id
          (service.hash_token (create_refresh at k.user next_id k.ttl_ms k.remember)) in
      count-append (is_consumable k') rows (row ∷ [])
      ∙ rw other (
          omega (
            arith,
            one,
            unique k.session.id,
            count-after_update (is_consumable k') (is_consumable k) (λ y. text_eq y.id k.session.id)
                (replace k.now next_id) (λ y e. ground arith)
                (λ y e. let e' : text_eq y.id k'.session.id ≡ true = ground arith in rw same at e')
                (λ y e. ground arith) s.sessions,
          ))

  -- A row that another commit has consumed is found consumed.
  replaced_row :
      (k' : Ticket) (next_id' : Text) (p : Session → Bool) (rows : List Session) (y : Session)
      → ((z : Session) → p (replace k'.now next_id' z) ≡ p z)
      → is_some y.revoked_at ≡ true
      → find p rows ≡ some y
      → find p (update_many (is_consumable k') (replace k'.now next_id') rows) ≡ some y
  replaced_row k' next_id' p rows y keeps gone found =
      find-update_many p (is_consumable k') (replace k'.now next_id') keeps rows found
      ∙ ground arith

  -- Two requests may both pass the checks on one session before either commits. When the first has
  -- committed, the second is refused, and afterwards no session of the owner is live, the one that
  -- the first request got included. The new id is not the old one.
  pub rotation_race :
      (k k' : Ticket) (next_id next_id' : Text) (at at' : ℕ) (s s' : Store) (r : Rotated)
      (x : Session)
      → HasUniqueIds s
      → find (λ y. text_eq y.id k.session.id) s.sessions ≡ some x
      → k'.session.id ≡ k.session.id
      → text_eq next_id k.session.id ≡ false
      → commit_rotation k next_id at s ≡ done r s'
      → (succeeded (commit_rotation k' next_id' at' s') ≡ false)
        × IsSignedOut x.user_id (final (commit_rotation k' next_id' at' s'))
  rotation_race k k' next_id next_id' at at' s s' r x unique found same fresh h =
      let (one, moved) = commit_inv k next_id at s h in
      let (hit, row) = consumed_row k next_id at s unique one found in
      let (lost, after) =
        commit_lost k' next_id' at' (committed k next_id at s)
          (none_left k k' next_id at s unique one same fresh) in
      let still =
        replaced_row k' next_id' (λ y. text_eq y.id k'.session.id)
          (committed k next_id at s).sessions (replace k.now next_id x) (λ z. refl) refl
          (rw same row) in
      rw moved (lost, rw after (rw still (lost_race_replaced k' (replace k.now next_id x) _ refl)))
