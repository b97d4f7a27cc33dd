-- ===== src/Auth/SignIn.antt =====
-- Signing in, activating an account and recovering a password: backend/src/auth/auth.service.ts over
-- the throttle, the links, the sessions and the passwords, which keep their own tables.
use proj_track_official.Prelude.{
  ℕ, Bool, true, false, ◌&&◌, ◌||◌, not, Option, none, some, List, [], ◌∷◌, ◌++◌, find,
  if◌then◌else◌, or_else,
}
use proj_track_official.Prelude.Text.{
  Text, codes, text_eq, is_empty, trim, nullish, CaseTable, to_lower, to_upper,
}
use proj_track_official.Prelude.Table.{update_one}
use proj_track_official.Prelude.Outcome.{
  bad_request, unauthorized, Outcome, done, thrown, Handler, ◌>>=◌, ◌>>◌, get, modify, require,
  throw, return, lift, transaction,
}
use proj_track_official.Auth.User.{
  Role, admin, teacher, student, User, UserStatus, active, disabled, is_active, is_pending_setup,
  can_send_recovery,
}
use proj_track_official.Auth.Password.{Scrypt, hash, compare, assert_strong_password}
use proj_track_official.Auth.Throttle
use proj_track_official.Auth.Throttle.{
  Action, login, forgot_password, reset_password, get_config, build_key,
}
use proj_track_official.Auth.Tokens
use proj_track_official.Auth.Sessions
pub mod Handlers
pub mod Laws
mod Tests

-- A row of `user`; the number is that of the student or of the employee.
pub record Account : Type 0 where
  pub user : User
  pub number : Option Text
  pub password_hash : Option Text

-- A password reset mail that is queued.
pub record Letter : Type 0 where
  pub to : Text
  pub ref : Text
  pub token : Text

pub record Db : Type 0 where
  pub accounts : List Account
  pub tokens : List Tokens.Token
  pub sessions : List Sessions.Session
  pub limits : Throttle.Store
  pub letters : List Letter

abbrev pub find_account : Text → Db → Option Account
find_account id db = find (λ (a : Account). text_eq a.user.id id) db.accounts

-- `record.user` of a link; a link's account is there by its foreign key.
abbrev pub user_of : Text → Db → User
user_of id db = elim (find_account id db) [
  | none ↦ record { id = id; email = []; role = student; status = disabled }
  | some a ↦ a.user
]

-- The tables that the links see.
abbrev pub link_view : Db → Tokens.Store
link_view db = record { tokens = db.tokens; users = λ id. user_of id db }

abbrev pub with_links : {A : Type 0} → Outcome Tokens.Store A → Db → Outcome Db A
with_links (done a s) db = done a (record db { tokens = s.tokens })
with_links (thrown e s) db = thrown e (record db { tokens = s.tokens })

abbrev pub on_links : {A : Type 0} → Handler Tokens.Store A → Handler Db A
on_links m db = with_links (m (link_view db)) db

abbrev pub session_view : Db → Sessions.Store
session_view db = record {
  sessions = db.sessions;
  users = λ id. elim (find_account id db) [ none ↦ none | some a ↦ some a.user ];
}

abbrev pub with_sessions : {A : Type 0} → Outcome Sessions.Store A → Db → Outcome Db A
with_sessions (done a s) db = done a (record db { sessions = s.sessions })
with_sessions (thrown e s) db = thrown e (record db { sessions = s.sessions })

abbrev pub on_sessions : {A : Type 0} → Handler Sessions.Store A → Handler Db A
on_sessions m db = with_sessions (m (session_view db)) db

abbrev pub with_limits : {A : Type 0} → Outcome Throttle.Store A → Db → Outcome Db A
with_limits (done a s) db = done a (record db { limits = s })
with_limits (thrown e s) db = thrown e (record db { limits = s })

abbrev pub on_limits : {A : Type 0} → Handler Throttle.Store A → Handler Db A
on_limits m db = with_limits (m db.limits) db

abbrev pub change_limits : (Throttle.Store → Throttle.Store) → Db → Db
change_limits f db = record db { limits = f db.limits }

abbrev pub same_role : Role → Role → Bool
same_role admin admin = true
same_role teacher teacher = true
same_role student student = true
same_role _ _ = false

abbrev pub role_text : Role → Text
role_text admin = codes "ADMIN"
role_text teacher = codes "TEACHER"
role_text student = codes "STUDENT"

-- `tx.user.update` of the password
abbrev pub set_password : Text → Text → Option UserStatus → Db → Db
set_password id hashed status db = record db {
  accounts =
      update_one (λ (a : Account). text_eq a.user.id id)
        (λ a. record a {
          user = record a.user { status = or_else status a.user.status };
          password_hash = some hashed;
        })
        db.accounts;
}

unfoldable pub revoke_sessions : Text → ℕ → Db → Db
unfolding Sessions.revoke_all_for_user
revoke_sessions id now db = record db {
  sessions = (Sessions.revoke_all_for_user id now (session_view db)).sessions;
}
