-- ===== src/Auth/Tokens/Issuing.antt =====
-- Links as they are issued: one live activation link for each account, a reset link that is used
-- again while it lives, and the way from issue to acceptance.
use proj_track_official.Prelude.{
  ℕ, ◌+◌, ◌≤◌, ◌<◌, ◌≡◌, refl, true, false, ◌&&◌, none, some, [], ◌∷◌, ◌++◌, find, count, keep,
  arith, ◌∙◌, Bool-cases, inl, inr, subst,
}
use proj_track_official.Prelude.Text.{
  Text, text_eq, text_eq_refl, text_eq_iff, is_empty, trim, falsy,
}
use proj_track_official.Prelude.Table.{
  update_many, count-append, count-update_many, count-update_many_zero, count_mono, keep-append,
  keep-eq-nil, count-of-keep_nil, find-append, find-update_many-none,
}
use proj_track_official.Prelude.Outcome.{done, final}
use proj_track_official.Auth.User.{is_active}
use proj_track_official.Auth.Tokens.{
  TokenType, password_reset, account_activation, type_eq, Crypto, Token, Store, Fresh, ttl_ms,
  is_owned, is_unspent, is_live, newest, revoke, issue_fresh, issue_reusing, issue_activation,
  issue_password_reset, consume, new_token, create_token, reuse_or_create,
}
use proj_track_official.Auth.Tokens.Once.{HasUniqueIds, spent, consume_iff}

type_eq_refl : (ty : TokenType) → type_eq ty ty ≡ true
type_eq_refl password_reset = refl
type_eq_refl account_activation = refl

module _ ⦃crypto : Crypto⦄ where
  -- After an activation link is issued, it is the only live one of its account: the earlier links
  -- are revoked, at any time before the new one expires.
  pub issue_activation_single :
      (fresh : Fresh) (user_id : Text) (now later at : ℕ) (s : Store)
      → at < later + ttl_ms account_activation
      → count
          (is_live user_id account_activation at)
          (final (issue_activation fresh user_id now later s)).tokens
        ≡ 1
  unfolding issue_activation
  issue_activation_single fresh user_id now later at s h =
      let picked = λ (r : Token). is_owned user_id account_activation r && is_unspent r in
      count-append (is_live user_id account_activation at)
        (update_many picked (revoke now) s.tokens)
        (new_token fresh user_id account_activation later ∷ [])
      ∙ ground (
        arith,
        text_eq_refl user_id,
        count-update_many_zero (is_live user_id account_activation at) picked (revoke now)
            (λ x e. ground arith) (λ x e. ground arith) s.tokens,
      )

  newest_of_one : (r : Token) → newest (r ∷ []) ≡ some r
  unfolding newest
  newest_of_one r = refl

  issue_reusing_idle :
      (fresh : Fresh) (user_id : Text) (ty : TokenType) (now later : ℕ) (s : Store)
      → keep (is_live user_id ty now) s.tokens ≡ []
      → issue_reusing fresh user_id ty now later s ≡ create_token fresh user_id ty later s
  unfolding issue_reusing
  issue_reusing_idle fresh user_id ty now later s h = rw (h, issue_reusing)

  issue_reusing_live :
      (fresh : Fresh) (user_id : Text) (ty : TokenType) (now later : ℕ) (s : Store) (r : Token)
      (raw : Text)
      → keep (is_live user_id ty now) s.tokens ≡ r ∷ []
      → crypto.decrypt r.encrypted_token ≡ some raw
      → issue_reusing fresh user_id ty now later s
        ≡ done
            (record {
              token = raw;
              public_ref = r.public_ref;
              expires_at = r.expires_at;
              reused = true;
            })
            s
  unfolding issue_reusing
  issue_reusing_live fresh user_id ty now later s r raw h d =
      rw (h, issue_reusing) (rw (d, reuse_or_create))

  only_new_live :
      (fresh : Fresh) (user_id : Text) (ty : TokenType) (now later now' : ℕ) (s : Store)
      → now ≤ now'
      → now' < later + ttl_ms ty
      → keep (is_live user_id ty now) s.tokens ≡ []
      → keep (is_live user_id ty now') (s.tokens ++ new_token fresh user_id ty later ∷ [])
        ≡ new_token fresh user_id ty later ∷ []
  only_new_live fresh user_id ty now later now' s mono early idle =
      let stale : count (is_live user_id ty now') s.tokens ≡ 0 = omega (
        arith,
        count_mono (is_live user_id ty now') (is_live user_id ty now) (λ x e. ground arith)
            s.tokens,
        count-of-keep_nil (is_live user_id ty now) s.tokens idle,
      ) in
      keep-append (is_live user_id ty now') s.tokens (new_token fresh user_id ty later ∷ [])
      ∙ rw (keep-eq-nil (is_live user_id ty now') s.tokens stale)
          (ground (arith, text_eq_refl user_id, type_eq_refl ty))

  -- A reset link that is asked for again before it expires is the same link, and nothing is written,
  -- if no older link was live at the first request and the runtime's decryption undoes its
  -- encryption.
  pub issue_password_reset_reuses :
      (fresh fresh' : Fresh) (user_id : Text) (now later now' later' : ℕ) (s : Store)
      → ((n : ℕ) (t : Text) → crypto.decrypt (crypto.encrypt n t) ≡ some t)
      → now ≤ now'
      → now' < later + ttl_ms password_reset
      → keep (is_live user_id password_reset now) s.tokens ≡ []
      → let s' = final (issue_password_reset fresh user_id now later s) in
        issue_password_reset fresh' user_id now' later' s'
        ≡ done
            (record {
              token = fresh.raw;
              public_ref = fresh.ref;
              expires_at = later + ttl_ms password_reset;
              reused = true;
            })
            s'
  unfolding issue_password_reset create_token
  issue_password_reset_reuses fresh fresh' user_id now later now' later' s inverse mono early idle =
      rw (issue_reusing_idle fresh user_id password_reset now later s idle) (
        issue_reusing_live fresh' user_id password_reset now' later' _
          (new_token fresh user_id password_reset later) fresh.raw
          (only_new_live fresh user_id password_reset now later now' s mono early idle)
          (inverse fresh.nonce fresh.raw))

  -- What the random values of a new link satisfy: no row has its id or reference, and its texts are
  -- not empty and bear no whitespace at their ends.
  pub record IsFresh (fresh : Fresh) (s : Store) : Type 0 where
    pub new_id : count (λ r. text_eq r.id fresh.row_id) s.tokens ≡ 0
    pub new_ref : find (λ r. text_eq r.public_ref fresh.ref) s.tokens ≡ none
    pub ref_trimmed : trim (falsy (some fresh.ref) []) ≡ fresh.ref
    pub raw_trimmed : trim (falsy (some fresh.raw) []) ≡ fresh.raw
    pub ref_solid : is_empty fresh.ref ≡ false
    pub raw_solid : is_empty fresh.raw ≡ false

  issue_fresh-HasUniqueIds :
      (fresh : Fresh) (user_id : Text) (ty : TokenType) (now later : ℕ) (s : Store)
      → HasUniqueIds s
      → count (λ r. text_eq r.id fresh.row_id) s.tokens ≡ 0
      → HasUniqueIds (final (issue_fresh fresh user_id ty now later s))
  unfolding issue_fresh
  issue_fresh-HasUniqueIds fresh user_id ty now later s unique new x =
      let picked = λ (r : Token). is_owned user_id ty r && is_unspent r in
      let has_id = λ (r : Token). text_eq r.id x in
      let kept = count-update_many has_id picked (revoke now) (λ y e. refl) s.tokens in
      let total =
        count-append has_id (update_many picked (revoke now) s.tokens)
          (new_token fresh user_id ty later ∷ []) in
      elim (Bool-cases (text_eq fresh.row_id x)) [
        | inl same ↦
            let is_x : fresh.row_id ≡ x = (text_eq_iff fresh.row_id x).0 same in
            let none_yet : count has_id s.tokens ≡ 0 =
              subst (λ y. count (λ (r : Token). text_eq r.id y) s.tokens ≡ 0) is_x new in
            rw total (rw same (omega (arith, kept, none_yet)))
        | inr other ↦ rw total (rw other (omega (arith, kept, unique x)))
      ]

  -- An activation link that was just issued is accepted with its reference and token, while it lives
  -- and the account is not active.
  pub issue_activation-consume :
      (fresh : Fresh) (user_id : Text) (now later at : ℕ) (s : Store)
      → HasUniqueIds s
      → IsFresh fresh s
      → is_active (s.users user_id).status ≡ false
      → at < later + ttl_ms account_activation
      → let s' = final (issue_activation fresh user_id now later s) in
        (s'' : Store) × (consume account_activation (some fresh.ref) (some fresh.raw) at s'
          ≡ done (s.users user_id) s'')
  unfolding issue_activation
  issue_activation-consume fresh user_id now later at s unique new idle h =
      let s' = final (issue_activation fresh user_id now later s) in
      let row = new_token fresh user_id account_activation later in
      let picked = λ (r : Token). is_owned user_id account_activation r && is_unspent r in
      (
        spent row at s',
        (consume_iff account_activation (some fresh.ref) (some fresh.raw) at s' (s.users user_id)
              (spent row at s')
              (issue_fresh-HasUniqueIds fresh user_id account_activation now later s unique
                new.new_id)).1
            (
              row,
              record {
                has_ref = rw new.ref_trimmed new.ref_solid;
                has_token = rw new.raw_trimmed new.raw_solid;
                found = rw new.ref_trimmed (
                    find-append (λ r. text_eq r.public_ref fresh.ref)
                      (update_many picked (revoke now) s.tokens) row
                      (find-update_many-none (λ r. text_eq r.public_ref fresh.ref) picked
                        (revoke now) (λ x. refl) s.tokens new.new_ref)
                      (text_eq_refl fresh.ref));
                right_type = refl;
                unspent = refl;
                fresh = omega arith;
                not_active = idle;
                right_token = rw new.raw_trimmed;
              },
              h,
              refl,
              refl,
            ),
      )
