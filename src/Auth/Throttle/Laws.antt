-- ===== src/Auth/Throttle/Laws.antt =====
-- Lock-out after too many failures, and its limits.
use proj_track_official.Prelude.{
  ℕ, suc, ◌+◌, ◌≤◌, ◌<◌, ◌≡◌, refl, true, false, ◌&&◌, none, some, List, [], ◌∷◌, arith, All,
  length, ◌∙◌, ap,
}
use proj_track_official.Prelude.Text.{Text, text_eq, is_empty}
use proj_track_official.Prelude.Outcome.{thrown, succeeded, too_many_requests}
use proj_track_official.Auth.Throttle.{
  Action, action_eq, Config, RateLimit, Store, is_blocked, assert_not_blocked, record_failure,
  record_failures, reset,
}
use proj_track_official.Auth.Throttle.Row.{
  next_row, record_failure_row, record_failure_other, put_self,
}

module _ (cfg : Config) (a : Action) (k : Text) where
  -- The row of a window that has not ended, after more failures in the window.
  record Grown (r : RateLimit) (n : ℕ) (r' : RateLimit) : Type 0 where
    same_start : r'.first_attempt_at ≡ r.first_attempt_at
    counted : r'.attempts ≡ r.attempts + n
    unblocked : r.blocked_until ≡ none → r.attempts + n < cfg.limit → r'.blocked_until ≡ none

  next_row-Grown :
      (r : RateLimit) (now : ℕ)
      → now < r.first_attempt_at + cfg.window_ms
      → Grown r 1 (next_row cfg now (some r))
  unfolding next_row
  next_row-Grown r now h = ground arith

  Grown-trans :
      {r r' r'' : RateLimit} (n m : ℕ) → Grown r n r' → Grown r' m r'' → Grown r (n + m) r''
  Grown-trans n m g h = record {
    same_start = h.same_start ∙ g.same_start;
    counted = omega (arith, g.counted, h.counted);
    unblocked = λ e l. h.unblocked (g.unblocked e (omega arith)) (omega (arith, g.counted));
  }

  record_failures-Grown :
      (ts : List ℕ) (r : RateLimit) (s : Store)
      → is_empty k ≡ false
      → s a k ≡ some r
      → All (λ t. t < r.first_attempt_at + cfg.window_ms) ts
      → (r' : RateLimit) × (record_failures cfg a k ts s a k ≡ some r') × Grown r (length ts) r'
  unfolding record_failures
  record_failures-Grown [] r s ne e h =
      (r, e, record { same_start = refl; counted = omega arith; unblocked = λ x _. x })
  record_failures-Grown (t ∷ ts) r s ne e (p, h) =
      let r₁ = next_row cfg t (some r) in
      let g₁ = next_row-Grown r t p in
      let e₁ = record_failure_row cfg a k t s ne ∙ ap (λ o. some (next_row cfg t o)) e in
      let (r', e', g) =
        record_failures-Grown ts r₁ (record_failure cfg a k t s) ne e₁ (rw (g₁.same_start) h) in
      (r', e', rw (suc_add (length ts)) (Grown-trans 1 (length ts) g₁ g))
    where
      suc_add : (n : ℕ) → suc n ≡ 1 + n
      suc_add n = omega arith

  first_failure :
      (t : ℕ) (s : Store)
      → is_empty k ≡ false
      → s a k ≡ none
      → (r : RateLimit) × (record_failure cfg a k t s a k ≡ some r)
        × (r.first_attempt_at ≡ t)
        × (r.attempts ≡ 1)
        × (1 < cfg.limit → r.blocked_until ≡ none)
  unfolding next_row
  first_failure t s ne e = (
    next_row cfg t none,
    record_failure_row cfg a k t s ne ∙ ap (λ o. some (next_row cfg t o)) e,
    ground arith,
    ground arith,
    ground arith,
  )

  -- The failures of one window: `t` the first, `ts` the later ones.
  abbrev pub InWindow : ℕ → List ℕ → Type 0
  InWindow t ts = All (λ u. u < t + cfg.window_ms) ts

  window_row :
      (t : ℕ) (ts : List ℕ) (s : Store)
      → is_empty k ≡ false
      → s a k ≡ none
      → InWindow t ts
      → (r : RateLimit) × (record_failures cfg a k (t ∷ ts) s a k ≡ some r)
        × (r.first_attempt_at ≡ t)
        × (r.attempts ≡ suc (length ts))
        × (suc (length ts) < cfg.limit → r.blocked_until ≡ none)
  unfolding record_failures
  window_row t ts s ne e h =
      let (r₀, e₀, f₀, a₀, b₀) = first_failure t s ne e in
      let (r, e', g) = record_failures-Grown ts r₀ (record_failure cfg a k t s) ne e₀ (rw f₀ h) in
      (
        r,
        e',
        g.same_start ∙ f₀,
        omega (arith, g.counted, a₀),
        λ l. g.unblocked (b₀ (omega arith)) (omega (arith, a₀)),
      )

  last_failure :
      (r : RateLimit) (u : ℕ)
      → u < r.first_attempt_at + cfg.window_ms
      → cfg.limit ≤ r.attempts + 1
      → (next_row cfg u (some r)).blocked_until ≡ some (u + cfg.block_ms)
  unfolding next_row
  last_failure r u h l = ground arith

  blocked_row :
      (s : Store) (r : RateLimit) (now later until : ℕ)
      → is_empty k ≡ false
      → s a k ≡ some r
      → r.blocked_until ≡ some until
      → now < until
      → assert_not_blocked cfg a k now later s ≡ thrown (too_many_requests "Too many attempts.") s
  unfolding assert_not_blocked
  blocked_row s r now later until ne e b l = rw (ne, e) (ground arith)

  open_row :
      (s : Store) (r : RateLimit) (now later : ℕ)
      → is_empty k ≡ false
      → s a k ≡ some r
      → is_blocked r now ≡ false
      → succeeded (assert_not_blocked cfg a k now later s) ≡ true
  unfolding assert_not_blocked
  open_row s r now later ne e b = rw (ne, e) (ground arith)

  -- With no row at first, if failures come at `t`, at `ts` and at `u`, all before the window that
  -- began at `t` is over, and they number at least the limit, then every attempt before `u` plus
  -- the block time is refused with 429, and the refusal changes nothing.
  pub locked_out :
      (t u now later : ℕ) (ts : List ℕ) (s : Store)
      → is_empty k ≡ false
      → s a k ≡ none
      → InWindow t ts
      → u < t + cfg.window_ms
      → cfg.limit ≤ length ts + 2
      → now < u + cfg.block_ms
      → let s' = record_failure cfg a k u (record_failures cfg a k (t ∷ ts) s) in
        assert_not_blocked cfg a k now later s' ≡ thrown (too_many_requests "Too many attempts.") s'
  locked_out t u now later ts s ne e h hu l hn =
      let (r, e', f, c, _) = window_row t ts s ne e h in
      let s₁ = record_failures cfg a k (t ∷ ts) s in
      blocked_row (record_failure cfg a k u s₁) (next_row cfg u (some r)) now later
        (u + cfg.block_ms) ne
        (record_failure_row cfg a k u s₁ ne ∙ ap (λ o. some (next_row cfg u o)) e')
        (last_failure r u (rw f hu) (omega arith)) hn

  -- Fewer failures than the limit in one window never lock anyone out.
  pub not_locked_out :
      (t now later : ℕ) (ts : List ℕ) (s : Store)
      → is_empty k ≡ false
      → s a k ≡ none
      → InWindow t ts
      → suc (length ts) < cfg.limit
      → succeeded (assert_not_blocked cfg a k now later (record_failures cfg a k (t ∷ ts) s)) ≡ true
  not_locked_out t now later ts s ne e h l =
      let (r, e', f, c, b) = window_row t ts s ne e h in
      open_row (record_failures cfg a k (t ∷ ts) s) r now later ne e' (is_blocked_none r now (b l))
    where
      is_blocked_none :
          (r : RateLimit) (now : ℕ) → r.blocked_until ≡ none → is_blocked r now ≡ false
      is_blocked_none r now e = rw e

  record_failures_other :
      (b : Action) (j : Text) (ts : List ℕ) (s : Store)
      → (action_eq a b && text_eq k j) ≡ false
      → record_failures cfg a k ts s b j ≡ s b j
  unfolding record_failures
  record_failures_other b j [] s h = refl
  record_failures_other b j (t ∷ ts) s h =
      record_failures_other b j ts (record_failure cfg a k t s) h
      ∙ record_failure_other cfg a b k j t s h

  -- Failures under one action and key, however many, do not change whether another action or key
  -- is refused.
  pub failures_are_separate :
      (b : Action) (j : Text) (now later : ℕ) (ts : List ℕ) (s : Store)
      → (action_eq a b && text_eq k j) ≡ false
      → succeeded (assert_not_blocked cfg b j now later (record_failures cfg a k ts s))
        ≡ succeeded (assert_not_blocked cfg b j now later s)
  unfolding assert_not_blocked
  failures_are_separate b j now later ts s h = ground (arith, record_failures_other b j ts s h)

  -- A reset ends every lock-out of its action and key at once.
  pub reset_unlocks :
      (now later : ℕ) (s : Store)
      → succeeded (assert_not_blocked cfg a k now later (reset a k s)) ≡ true
  unfolding assert_not_blocked reset
  reset_unlocks now later s = ground (arith, put_self a k none s)
