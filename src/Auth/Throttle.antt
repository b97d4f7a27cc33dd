-- ===== src/Auth/Throttle.antt =====
-- The attempt limits of backend/src/auth/auth-throttle.service.ts. The table `authRateLimit` is
-- unique on action and key, so it is a function of these. Times and durations are milliseconds;
-- the settings are natural numbers, none where the variable is unset or empty.
pub mod Row
pub mod Laws
pub mod Key
mod Tests
use Prim.Native.String.{String}
use proj_track_official.Prelude.{
  ℕ, ◌+◌, ◌*◌, Bool, true, false, ◌&&◌, Option, none, some, List, [], ◌∷◌, ◌++◌, map, ◌==◌, ltb,
  leb, if◌then◌else◌, or_else, keep, not,
}
use proj_track_official.Prelude.Text.{
  Text, codes, text_eq, is_empty, trim, CaseTable, to_lower, nullish,
}
use proj_track_official.Prelude.Outcome.{Error, too_many_requests, Outcome, done, thrown}

pub data Action : Type 0 where
  login forgot_password reset_password : Action

abbrev pub action_text : Action → Text
action_text login = codes "login"
action_text forgot_password = codes "forgot-password"
action_text reset_password = codes "reset-password"

abbrev pub action_eq : Action → Action → Bool
action_eq login login = true
action_eq forgot_password forgot_password = true
action_eq reset_password reset_password = true
action_eq _ _ = false

-- The nine `AUTH_*` variables.
pub record Env : Type 0 where
  pub login_max_attempts : Option ℕ
  pub login_window_ms : Option ℕ
  pub login_block_ms : Option ℕ
  pub forgot_max_attempts : Option ℕ
  pub forgot_window_ms : Option ℕ
  pub forgot_block_ms : Option ℕ
  pub reset_max_attempts : Option ℕ
  pub reset_window_ms : Option ℕ
  pub reset_block_ms : Option ℕ

pub record Config : Type 0 where
  pub limit : ℕ
  pub window_ms : ℕ
  pub block_ms : ℕ

-- `getConfig`
unfoldable pub get_config : Env → Action → Config
get_config env forgot_password = record {
  limit = or_else env.forgot_max_attempts 5;
  window_ms = or_else env.forgot_window_ms (60 * 60 * 1000);
  block_ms = or_else env.forgot_block_ms (60 * 60 * 1000);
}
get_config env reset_password = record {
  limit = or_else env.reset_max_attempts 5;
  window_ms = or_else env.reset_window_ms (60 * 60 * 1000);
  block_ms = or_else env.reset_block_ms (60 * 60 * 1000);
}
get_config env login = record {
  limit = or_else env.login_max_attempts 5;
  window_ms = or_else env.login_window_ms (15 * 60 * 1000);
  block_ms = or_else env.login_block_ms (15 * 60 * 1000);
}

join_bar : List Text → Text
join_bar [] = []
join_bar (s ∷ []) = s
join_bar (s ∷ (t ∷ ts)) = s ++ (b'|' ∷ join_bar (t ∷ ts))

-- `formatKey`
format_key : ⦃c : CaseTable⦄ → List (Option Text) → Text
unfolding join_bar
format_key parts =
    join_bar (keep (λ s. not (is_empty s)) (map (λ p. to_lower (trim (nullish p []))) parts))

-- `buildKey`
unfoldable pub build_key : ⦃c : CaseTable⦄ → Action → Option Text → Option Text → Text
unfolding format_key
build_key action identifier ip = format_key (some (action_text action) ∷ identifier ∷ ip ∷ [])

pub record RateLimit : Type 0 where
  pub attempts : ℕ
  pub first_attempt_at : ℕ
  pub last_attempt_at : ℕ
  pub blocked_until : Option ℕ

abbrev pub Store : Type 0
Store = Action → Text → Option RateLimit

abbrev pub put : Action → Text → Option RateLimit → Store → Store
put a k v s b j = if action_eq a b && text_eq k j then v else s b j

-- `row.blockedUntil && row.blockedUntil.getTime() > now`
abbrev pub is_blocked : RateLimit → ℕ → Bool
is_blocked row now = elim row.blocked_until [ none ↦ false | some until ↦ ltb now until ]

-- What `assertNotBlocked` does with the row; `now` and `later` are its two readings of the clock.
check_row : Config → Action → Text → ℕ → ℕ → Option RateLimit → Store → Outcome Store (Unit {0})
check_row cfg a k now later none s = done tt s
check_row cfg a k now later (some row) s =
    if is_blocked row now
    then thrown (too_many_requests "Too many attempts.") s
    else if leb (row.first_attempt_at + cfg.window_ms) later
    then done tt (put a k none s)
    else done tt s

-- `assertNotBlocked`
unfoldable pub assert_not_blocked :
    Config → Action → Text → ℕ → ℕ → Store → Outcome Store (Unit {0})
unfolding check_row
assert_not_blocked cfg a k now later s =
    if is_empty k then done tt s else check_row cfg a k now later (s a k) s

-- The `deleteMany` of `recordFailure`: a row whose window is over goes.
drop_expired : Config → Action → Text → ℕ → Option RateLimit → Store → Store
drop_expired cfg a k now none s = s
drop_expired cfg a k now (some row) s =
    if leb (row.first_attempt_at + cfg.window_ms) now then put a k none s else s

-- The row that the `upsert` leaves.
upserted : ℕ → Option RateLimit → RateLimit
upserted now none = record {
  attempts = 1;
  first_attempt_at = now;
  last_attempt_at = now;
  blocked_until = none;
}
upserted now (some row) = record row { attempts = row.attempts + 1; last_attempt_at = now }

-- `recordFailure`
unfoldable pub record_failure : Config → Action → Text → ℕ → Store → Store
unfolding drop_expired upserted
record_failure cfg a k now s =
    if is_empty k
    then s
    else let s' = drop_expired cfg a k now (s a k) s in
      let updated = upserted now (s' a k) in
      let s'' = put a k (some updated) s' in
      if leb cfg.limit updated.attempts
      then put a k
          (some
            (record updated { blocked_until = some (now + cfg.block_ms); last_attempt_at = now }))
          s''
      else s''

-- `reset`
unfoldable pub reset : Action → Text → Store → Store
reset a k s = if is_empty k then s else put a k none s

-- Failures at the given times, in order.
unfoldable pub record_failures : Config → Action → Text → List ℕ → Store → Store
record_failures cfg a k [] s = s
record_failures cfg a k (t ∷ ts) s = record_failures cfg a k ts (record_failure cfg a k t s)
