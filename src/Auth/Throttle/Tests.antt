-- ===== src/Auth/Throttle/Tests.antt =====
-- The laws of the throttle at concrete attempts.
use proj_track_official.Prelude.{◌≡◌, refl, none, [], ◌∷◌, arith}
use proj_track_official.Prelude.Text.{Text, codes}
use proj_track_official.Prelude.Outcome.{thrown, too_many_requests}
use proj_track_official.Auth.Throttle.{
  login, Config, Store, assert_not_blocked, record_failure, record_failures,
}
use proj_track_official.Auth.Throttle.Laws.{locked_out}

abbrev three_tries : Config
three_tries = record { limit = 3; window_ms = 1000; block_ms = 5000 }

abbrev key : Text
key = codes "login|ann"

abbrev no_rows : Store
no_rows a k = none

locked_out_example :
    assert_not_blocked three_tries login key 5019 5019 (
      record_failure three_tries login key 20
        (record_failures three_tries login key (10 ∷ (15 ∷ [])) no_rows))
    ≡ thrown (too_many_requests "Too many attempts.") (
        record_failure three_tries login key 20
          (record_failures three_tries login key (10 ∷ (15 ∷ [])) no_rows))
locked_out_example =
    locked_out three_tries login key 10 20 5019 5019 (15 ∷ []) no_rows refl refl (omega arith, tt)
      (omega arith) (omega arith) (omega arith)
