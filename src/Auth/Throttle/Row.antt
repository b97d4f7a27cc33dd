-- ===== src/Auth/Throttle/Row.antt =====
-- What each operation does to the one row of an action and key, and to the others.
use proj_track_official.Prelude.{
  ℕ, ◌+◌, ◌≡◌, refl, true, false, ◌&&◌, Option, none, some, arith, leb, if◌then◌else◌,
}
use proj_track_official.Prelude.Text.{Text, text_eq, text_eq_refl, is_empty}
use proj_track_official.Auth.Throttle.{
  Action, login, action_eq, Config, RateLimit, Store, put, upserted, record_failure,
}

pub action_eq_refl : (a : Action) → action_eq a a ≡ true
action_eq_refl login = refl
action_eq_refl _ = refl

pub put_self : (a : Action) (k : Text) (v : Option RateLimit) (s : Store) → put a k v s a k ≡ v
put_self a k v s = rw (action_eq_refl a, text_eq_refl k)

-- The row after a failure, from the row before it.
unfoldable pub next_row : Config → ℕ → Option RateLimit → RateLimit
unfolding upserted
next_row cfg now old =
    let kept = unexpired old in
    let updated = upserted now kept in
    if leb cfg.limit updated.attempts
    then record updated { blocked_until = some (now + cfg.block_ms); last_attempt_at = now }
    else updated
  where
    unexpired : Option RateLimit → Option RateLimit
    unexpired none = none
    unexpired (some row) = if leb (row.first_attempt_at + cfg.window_ms) now then none else some row

-- A failure leaves the row that `next_row` says.
pub record_failure_row :
    (cfg : Config) (a : Action) (k : Text) (now : ℕ) (s : Store)
    → is_empty k ≡ false
    → record_failure cfg a k now s a k ≡ some (next_row cfg now (s a k))
unfolding record_failure next_row
record_failure_row cfg a k now s h = ground (arith, action_eq_refl a, text_eq_refl k)

-- A failure of one action and key leaves the rows of all others as they were.
pub record_failure_other :
    (cfg : Config) (a b : Action) (k j : Text) (now : ℕ) (s : Store)
    → (action_eq a b && text_eq k j) ≡ false
    → record_failure cfg a k now s b j ≡ s b j
unfolding record_failure
record_failure_other cfg a b k j now s h = ground arith
