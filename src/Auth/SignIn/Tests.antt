-- ===== src/Auth/SignIn/Tests.antt =====
-- The laws of signing in at one account.
use proj_track_official.Auth.Refresh.{TokenService, create_refresh}
use proj_track_official.Prelude.{◌≡◌, refl, true, false, none, some, [], ◌∷◌, ◌++◌, count}
use proj_track_official.Prelude.Text.{Text, codes, text_eq, ascii_only, trim, to_lower}
use proj_track_official.Prelude.Outcome.{final, succeeded}
use proj_track_official.Auth.User.{active, pending_activation, student, UserStatus}
use proj_track_official.Auth.Password.{Scrypt, hash, compare, assert_strong_password}
use proj_track_official.Auth.Password.Stored.{compare-hash}
use proj_track_official.Auth.Throttle.{Env, assert_not_blocked, build_key}
use proj_track_official.Auth.Tokens.{
  Crypto, Token, TokenType, account_activation, password_reset, consume,
}
use proj_track_official.Auth.Sessions.{is_live_of, create_refresh_session}
use proj_track_official.Auth.SignIn.{Account, Db, same_role, is_active, find_account}
use proj_track_official.Auth.SignIn.Handlers.{
  Attempt, Change, activate, reset_password_by_link, sign_in, find_by_login,
}
use proj_track_official.Auth.SignIn.Laws.{
  activate-active, reset_password_by_link-refuses_active, sign_in-is_known,
}

abbrev eight : Text
eight = codes "00000000"

abbrev thirty_two : Text
thirty_two = eight ++ (eight ++ (eight ++ eight))

-- Every key is zeros.
abbrev zeros : Scrypt
zeros = record {
  derive = λ password salt. thirty_two ++ (thirty_two ++ (thirty_two ++ thirty_two));
}

abbrev plain : Crypto
plain = record { hash = λ t. t; encrypt = λ n t. t; decrypt = λ t. some t }

abbrev service : TokenService
service = record {
  sign = λ c. c.sid;
  open_token = λ token. none;
  hash_token = λ t. t;
  issuer = codes "api";
  audience = codes "web";
  refresh_ttl_ms = 10;
  remember_refresh_ttl_ms = 20;
}

abbrev env : Env
env = record {
  login_max_attempts = none;
  login_window_ms = none;
  login_block_ms = none;
  forgot_max_attempts = none;
  forgot_window_ms = none;
  forgot_block_ms = none;
  reset_max_attempts = none;
  reset_window_ms = none;
  reset_block_ms = none;
}

abbrev ann : UserStatus → Account
ann status = record {
  user = record { id = codes "u"; email = codes "ann@x.ph"; role = student; status = status };
  number = none;
  password_hash = some (hash ⦃scrypt = zeros⦄ thirty_two (codes "Passw0rd!"));
}

abbrev link : TokenType → Token
link ty = record {
  id = codes "t1";
  user_id = codes "u";
  token_type = ty;
  public_ref = codes "r";
  token_hash = codes "x";
  encrypted_token = codes "x";
  created_at = 0;
  expires_at = 100;
  used_at = none;
  revoked_at = none;
}

abbrev db_of : UserStatus → TokenType → Db
db_of status ty = record {
  accounts = ann status ∷ [];
  tokens = link ty ∷ [];
  sessions = [];
  limits = λ action key. none;
  letters = [];
}

abbrev change : Change
change = record {
  password = codes "Passw0rd!";
  confirm = codes "Passw0rd!";
  ref = some (codes "r");
  token = some (codes "x");
}

abbrev attempt : Attempt
attempt = record {
  identifier = codes "Ann@x.ph";
  password = codes "Passw0rd!";
  role = student;
  remember = false;
}

compare-hash_example :
    compare ⦃scrypt = zeros⦄ ⦃t = ascii_only⦄
      (codes "Passw0rd!")
      (some (hash ⦃scrypt = zeros⦄ thirty_two (codes "Passw0rd!")))
    ≡ true
unfolding to_lower
compare-hash_example =
    compare-hash ⦃t = ascii_only⦄ ⦃scrypt = zeros⦄ thirty_two (codes "Passw0rd!") refl refl refl

reset_password_by_link-refuses_active_example :
    succeeded (
      reset_password_by_link ⦃t = ascii_only⦄ ⦃scrypt = zeros⦄ ⦃crypto = plain⦄ ⦃service = service⦄
        env 5 change none thirty_two
        (db_of active password_reset))
    ≡ false
unfolding text_eq trim
reset_password_by_link-refuses_active_example =
    reset_password_by_link-refuses_active ⦃t = ascii_only⦄ ⦃scrypt = zeros⦄ ⦃crypto = plain⦄
      ⦃service = service⦄ env 5 change none thirty_two (link password_reset)
      (db_of active password_reset) refl refl

abbrev after_activation : Db
after_activation = final (
    activate ⦃t = ascii_only⦄ ⦃scrypt = zeros⦄ ⦃crypto = plain⦄ ⦃service = service⦄ env 5 change
      thirty_two (db_of pending_activation account_activation))

activate-active_example :
    (find_account (codes "u") after_activation ≡ some (ann active))
    × (count (is_live_of (codes "u")) after_activation.sessions ≡ 0)
unfolding text_eq trim activate assert_strong_password consume hash
activate-active_example =
    activate-active ⦃t = ascii_only⦄ ⦃scrypt = zeros⦄ ⦃crypto = plain⦄ ⦃service = service⦄ env 5
      change thirty_two (link account_activation) (ann pending_activation)
      (db_of pending_activation account_activation) after_activation refl refl refl

abbrev signed_in : Db
signed_in = final (
    sign_in ⦃t = ascii_only⦄ ⦃scrypt = zeros⦄ ⦃crypto = plain⦄ ⦃service = service⦄ env 5 attempt
      none (codes "s") (db_of active password_reset))

sign_in-is_known_example :
    (a : Account) × (find_by_login ⦃t = ascii_only⦄ ⦃scrypt = zeros⦄ ⦃crypto = plain⦄
        ⦃service = service⦄ env 5
        (codes "Ann@x.ph")
        student
        (db_of active password_reset)
      ≡ some a)
    × (same_role a.user.role student ≡ true)
    × (compare ⦃scrypt = zeros⦄ ⦃t = ascii_only⦄ (codes "Passw0rd!") a.password_hash ≡ true)
    × (is_active a.user.status ≡ true)
    × (codes "s" ≡ create_refresh ⦃service = service⦄ 5 a.user (codes "s") 10 false)
    × (signed_in.sessions
        ≡ record {
          id = codes "s";
          user_id = a.user.id;
          token_hash = codes "s";
          expires_at = 15;
          revoked_at = none;
          last_used_at = some 5;
          replaced_by = none;
        }
          ∷ [])
unfolding sign_in text_eq trim to_lower compare hash assert_not_blocked build_key
    create_refresh_session create_refresh
sign_in-is_known_example =
    sign_in-is_known ⦃t = ascii_only⦄ ⦃scrypt = zeros⦄ ⦃crypto = plain⦄ ⦃service = service⦄ env 5
      attempt none (codes "s") (codes "s") (db_of active password_reset) signed_in refl
