-- ===== src/Auth/Tokens/Once.antt =====
-- The acceptance of a link: `consume` of account-action-token.service.ts.
use proj_track_official.Prelude.{
  ℕ, ◌≤◌, ◌<◌, ◌≡◌, refl, ◌↔◌, ◌⊎◌, Bool, true, false, ◌||◌, Option, some, [], find, count, arith,
  Option-cases, Bool-cases, inl, inr, ◌∙◌,
}
use proj_track_official.Prelude.Text.{
  Text, text_eq, text_eq_iff, text_eq_refl, is_empty, trim, falsy,
}
use proj_track_official.Prelude.Table.{
  update_many, find-update_many, count-update_many, count-pos, count_mono, count_strict,
  count-after_update,
}
use proj_track_official.Prelude.Outcome.{Error, Result, ok, err, done, succeeded}
use proj_track_official.Auth.User.{User, is_active}
use proj_track_official.Auth.Tokens.{
  TokenType, type_eq, Crypto, Token, Store, is_unspent, mark_used, check_record,
  resolve_valid_record, is_consumable, consume_record, consume,
}

-- The primary key: no two rows have one id.
abbrev pub HasUniqueIds : Store → Type 0
HasUniqueIds s = (x : Text) → count (λ r. text_eq r.id x) s.tokens ≤ 1

module _ ⦃crypto : Crypto⦄ where
  -- What the checks before a consumption ask of the row that the reference leads to.
  pub record IsAcceptable (ty : TokenType) (ref token : Option Text) (now : ℕ) (s : Store)
      (r : Token) : Type 0 where
    pub has_ref : is_empty (trim (falsy ref [])) ≡ false
    pub has_token : is_empty (trim (falsy token [])) ≡ false
    pub found : find (λ x. text_eq x.public_ref (trim (falsy ref []))) s.tokens ≡ some r
    pub right_type : type_eq r.token_type ty ≡ true
    pub unspent : is_unspent r ≡ true
    pub fresh : now ≤ r.expires_at
    pub not_active : is_active (s.users r.user_id).status ≡ false
    pub right_token : r.token_hash ≡ crypto.hash (trim (falsy token []))

  check_record_sound :
      (ty : TokenType) (raw : Text) (now : ℕ) (s : Store) (r r' : Token)
      → check_record ty raw now s r ≡ ok r'
      → (r ≡ r')
        × (type_eq r.token_type ty ≡ true)
        × (is_unspent r ≡ true)
        × (now ≤ r.expires_at)
        × (is_active (s.users r.user_id).status ≡ false)
        × (text_eq r.token_hash (crypto.hash raw) ≡ true)
  unfolding check_record
  check_record_sound ty raw now s r r' h = ground arith

  pub resolve_sound :
      (ty : TokenType) (ref token : Option Text) (now : ℕ) (s : Store) {r : Token}
      → resolve_valid_record ty ref token now s ≡ ok r
      → IsAcceptable ty ref token now s r
  unfolding resolve_valid_record
  resolve_sound ty ref token now s {r} h =
      elim (Bool-cases (is_empty (trim (falsy ref [])) || is_empty (trim (falsy token [])))) [
        | inl bad ↦ absurd (ground arith)
        | inr good ↦
            elim (Option-cases (find (λ x. text_eq x.public_ref (trim (falsy ref []))) s.tokens)) [
              | inl missing ↦ absurd (ground arith)
              | inr (r₀, hit) ↦ ground (
                arith,
                check_record_sound ty (trim (falsy token [])) now s r₀ r,
                text_eq_iff r.token_hash (crypto.hash (trim (falsy token []))),
              )
            ]
      ]

  pub resolve_complete :
      (ty : TokenType) (ref token : Option Text) (now : ℕ) (s : Store) {r : Token}
      → IsAcceptable ty ref token now s r
      → resolve_valid_record ty ref token now s ≡ ok r
  unfolding resolve_valid_record check_record
  resolve_complete ty ref token now s {r} h =
      ground (arith, h.found, text_eq_iff r.token_hash (crypto.hash (trim (falsy token []))))

  -- Of rows with unique ids, a row that a lookup leads to is consumable alone.
  one_consumable :
      (s : Store) (p : Token → Bool) (now : ℕ) {r : Token}
      → HasUniqueIds s
      → find p s.tokens ≡ some r
      → is_consumable r.id now r ≡ true
      → count (is_consumable r.id now) s.tokens ≡ 1
  one_consumable s p now {r} unique found hit = omega (
    arith,
    count-pos p (is_consumable r.id now) s.tokens found hit,
    count_mono (is_consumable r.id now) (λ x. text_eq x.id r.id) same_id s.tokens,
    unique r.id,
  )
    where
      same_id : (x : Token) → is_consumable r.id now x ≡ true → text_eq x.id r.id ≡ true
      same_id x h = ground arith

  none_consumable :
      (s : Store) (p : Token → Bool) (now : ℕ) {r : Token}
      → HasUniqueIds s
      → find p s.tokens ≡ some r
      → is_consumable r.id now r ≡ false
      → count (is_consumable r.id now) s.tokens ≡ 0
  none_consumable s p now {r} unique found miss = omega (
    arith,
    count_strict (is_consumable r.id now) (λ x. text_eq x.id r.id) same_id p s.tokens found
        (text_eq_refl r.id) miss,
    unique r.id,
  )
    where
      same_id : (x : Token) → is_consumable r.id now x ≡ true → text_eq x.id r.id ≡ true
      same_id x h = ground arith

  consume_record_done :
      (r : Token) (now : ℕ) (s : Store)
      → count (is_consumable r.id now) s.tokens ≡ 1
      → consume_record r now s
        ≡ done
            (s.users r.user_id)
            (record s { tokens = update_many (is_consumable r.id now) (mark_used now) s.tokens })
  unfolding consume_record
  consume_record_done r now s h = rw h

  consume_record_refused :
      (r : Token) (now : ℕ) (s : Store)
      → count (is_consumable r.id now) s.tokens ≡ 0
      → succeeded (consume_record r now s) ≡ false
  unfolding consume_record
  consume_record_refused r now s h = rw h

  -- The state in which a consumption of the row leaves the store.
  abbrev pub spent : Token → ℕ → Store → Store
  spent r now s = record s {
    tokens = update_many (is_consumable r.id now) (mark_used now) s.tokens;
  }

  consume_resolved :
      (ty : TokenType) (ref token : Option Text) (now : ℕ) (s : Store) {r : Token}
      → resolve_valid_record ty ref token now s ≡ ok r
      → consume ty ref token now s ≡ consume_record r now s
  unfolding consume
  consume_resolved ty ref token now s h = rw (h, consume)

  consume_inv :
      (ty : TokenType) (ref token : Option Text) (now : ℕ) (s : Store) {u : User} {s' : Store}
      → HasUniqueIds s
      → consume ty ref token now s ≡ done u s'
      → (r : Token) × IsAcceptable ty ref token now s r
        × (now < r.expires_at)
        × (u ≡ s.users r.user_id)
        × (s' ≡ spent r now s)
  unfolding consume
  consume_inv ty ref token now s {u} {s'} unique h =
      elim (resolve-cases (resolve_valid_record ty ref token now s)) [
        | inl (e, bad) ↦ absurd (ground arith)
        | inr (r, good) ↦
            let a = resolve_sound ty ref token now s good in
            elim (Bool-cases (is_consumable r.id now r)) [
              | inl hit ↦
                  let e = consume_record_done r now s (
                    one_consumable s (λ x. text_eq x.public_ref (trim (falsy ref []))) now unique
                      a.found hit) in
                  (r, a, ground arith, ground arith, ground arith)
              | inr miss ↦
                  let e = consume_record_refused r now s (
                    none_consumable s (λ x. text_eq x.public_ref (trim (falsy ref []))) now unique
                      a.found miss) in
                  absurd (ground arith)
            ]
      ]
    where
      resolve-cases : (m : Result Token) → ((e : Error) × (m ≡ err e)) ⊎ ((r : Token) × (m ≡ ok r))
      resolve-cases (ok r) = inr (r, refl)
      resolve-cases (err e) = inl (e, refl)

  pub consume_iff :
      (ty : TokenType) (ref token : Option Text) (now : ℕ) (s : Store) (u : User) (s' : Store)
      → HasUniqueIds s
      → (consume ty ref token now s ≡ done u s') ↔ (
          (r : Token) × IsAcceptable ty ref token now s r
          × (now < r.expires_at)
          × (u ≡ s.users r.user_id)
          × (s' ≡ spent r now s))
  consume_iff ty ref token now s u s' unique = (
    consume_inv ty ref token now s unique,
    λ (r, a, early, same_user, same_store).
        consume_resolved ty ref token now s (resolve_complete ty ref token now s a)
        ∙ (rw (same_user, same_store)
            (consume_record_done r now s (
              one_consumable s (λ x. text_eq x.public_ref (trim (falsy ref []))) now unique a.found
                (ground (arith, text_eq_refl r.id, a.unspent))))),
  )

  used_refused :
      (ty : TokenType) (ref token : Option Text) (now : ℕ) (s : Store) {r : Token}
      → find (λ x. text_eq x.public_ref (trim (falsy ref []))) s.tokens ≡ some r
      → is_unspent r ≡ false
      → succeeded (consume ty ref token now s) ≡ false
  unfolding consume resolve_valid_record check_record
  used_refused ty ref token now s found bad = ground (arith, found)

  -- No account gets through twice on one link: after an accepted use of a reference, every use of
  -- it, of whatever type, with whatever token and at whatever time, is refused.
  pub consume_once :
      (ty ty' : TokenType) (ref token token' : Option Text) (now now' : ℕ) (s : Store) {u : User}
      {s' : Store}
      → HasUniqueIds s
      → consume ty ref token now s ≡ done u s'
      → succeeded (consume ty' ref token' now' s') ≡ false
  consume_once ty ty' ref token token' now now' s unique h =
      let (r, a, early, _, same) = consume_inv ty ref token now s unique h in
      let p = λ (x : Token). text_eq x.public_ref (trim (falsy ref [])) in
      let moved =
        find-update_many p (is_consumable r.id now) (mark_used now) (λ x. refl) s.tokens a.found in
      rw same (
        used_refused ty' ref token' now' (spent r now s) moved
          (ground (arith, text_eq_refl r.id, a.unspent)))

  -- Two requests may both pass the checks on one row before either writes. When the first has marked
  -- the row, the second is refused, at whatever time it writes.
  pub consume_race :
      (r : Token) (now now' : ℕ) (s : Store) (u : User) (s' : Store)
      → HasUniqueIds s
      → consume_record r now s ≡ done u s'
      → succeeded (consume_record r now' s') ≡ false
  unfolding consume_record
  consume_race r now now' s u s' unique h =
      let moved : s' ≡ spent r now s = ground arith in
      let one : count (is_consumable r.id now) s.tokens ≡ 1 = ground arith in
      rw moved (
        consume_record_refused r now' (spent r now s) (
          omega (
            arith,
            count-after_update (is_consumable r.id now') (is_consumable r.id now)
                (λ x. text_eq x.id r.id) (mark_used now) (λ x e. ground arith) (λ x e. ground arith)
                (λ x e. ground arith) s.tokens,
            unique r.id,
          )))

  pub spent-HasUniqueIds :
      (r : Token) (now : ℕ) (s : Store) → HasUniqueIds s → HasUniqueIds (spent r now s)
  spent-HasUniqueIds r now s unique x =
      rw
        (count-update_many (λ y. text_eq y.id x) (is_consumable r.id now) (mark_used now)
          (λ y h. refl) s.tokens)
        (unique x)
