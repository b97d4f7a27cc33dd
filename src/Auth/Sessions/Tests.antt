-- ===== src/Auth/Sessions/Tests.antt =====
-- The laws of the sessions at concrete tokens: a token is its times, its flag, and its texts with a
-- zero between them, each number of all but the last raised by one.
use proj_track_official.Auth.Refresh.{create_refresh, verify_refresh, Claims, Payload, TokenService}
use proj_track_official.Prelude.{
  ℕ, zero, suc, ◌≡◌, ◌==◌, if◌then◌else◌, Bool, refl, true, false, Option, none, some, [], ◌∷◌,
  arith, ap,
}
use proj_track_official.Prelude.Text.{Text, codes, text_eq}
use proj_track_official.Prelude.Outcome.{done, succeeded, final}
use proj_track_official.Auth.User.{User, student, active}
use proj_track_official.Auth.Sessions.{
  Session, Store, Ticket, Rotated, check_refresh, commit_rotation, rotate, revoke_refresh_session,
}
use proj_track_official.Auth.Sessions.Rotation.{HasUniqueIds, IsSignedOut, committed, rotation_race}
use proj_track_official.Auth.Sessions.Reuse.{rotate_once}
use proj_track_official.Auth.Refresh.Laws.{Signs}
use proj_track_official.Auth.Sessions.Handover.{commit-check_refresh}

abbrev join : Text → Text → Text
join [] sid = 0 ∷ sid
join (c ∷ sub) sid = suc c ∷ join sub sid

abbrev sub_of : Text → Text
sub_of [] = []
sub_of (zero ∷ t) = []
sub_of (suc c ∷ t) = c ∷ sub_of t

abbrev sid_of : Text → Text
sid_of [] = []
sid_of (zero ∷ t) = t
sid_of (suc c ∷ t) = sid_of t

sub_of-join : (sub sid : Text) → sub_of (join sub sid) ≡ sub
sub_of-join [] sid = refl
sub_of-join (c ∷ sub) sid = ap (λ t. c ∷ t) (sub_of-join sub sid)

sid_of-join : (sub sid : Text) → sid_of (join sub sid) ≡ sid
sid_of-join [] sid = refl
sid_of-join (c ∷ sub) sid = sid_of-join sub sid

abbrev flag : Bool → ℕ
flag b = if b then 1 else 0

abbrev read : Text → Option Claims
read [] = none
read (i ∷ []) = none
read (i ∷ (e ∷ [])) = none
read (i ∷ (e ∷ (f ∷ body))) = some (record {
  token_type = sub_of body;
  issuer = sub_of (sid_of body);
  audience = sub_of (sid_of (sid_of body));
  sub = sub_of (sid_of (sid_of (sid_of body)));
  sid = sid_of (sid_of (sid_of (sid_of body)));
  remember = f == 1;
  issued_at = i;
  expires_at = e;
})

abbrev written : Claims → Text
written c =
    c.issued_at
    ∷ (c.expires_at
        ∷ (flag c.remember
            ∷ join c.token_type (join c.issuer (join c.audience (join c.sub c.sid)))))

abbrev plain : TokenService
plain = record {
  sign = written;
  open_token = read;
  hash_token = λ t. t;
  issuer = codes "api";
  audience = codes "web";
  refresh_ttl_ms = 1000;
  remember_refresh_ttl_ms = 9000;
}

flag-eq : (b : Bool) → (flag b == 1) ≡ b
flag-eq true = refl
flag-eq false = refl

plain-Signs : Signs ⦃service = plain⦄
plain-Signs c =
    let users = join c.sub c.sid in
    let rest = join c.audience users in
    let body = join c.issuer rest in
    rw
      (
        sub_of-join c.token_type body,
        sid_of-join c.token_type body,
        sub_of-join c.issuer rest,
        sid_of-join c.issuer rest,
        sub_of-join c.audience users,
        sid_of-join c.audience users,
        sub_of-join c.sub c.sid,
        sid_of-join c.sub c.sid,
        flag-eq c.remember,
      )
      refl

abbrev ann : User
ann = record { id = codes "u1"; email = codes "ann@x.ph"; role = student; status = active }

abbrev token : Text
token = create_refresh ⦃service = plain⦄ 0 ann (codes "s1") 1000 false

abbrev session : Session
session = record {
  id = codes "s1";
  user_id = codes "u1";
  token_hash = token;
  expires_at = 1000;
  revoked_at = none;
  last_used_at = some 0;
  replaced_by = none;
}

abbrev store : Store
store = record { sessions = session ∷ []; users = λ id. some ann }

abbrev ticket : Ticket
ticket = record {
  session = session;
  user = ann;
  user_id = codes "u1";
  token_hash = token;
  now = 5;
  ttl_ms = 1000;
  remember = false;
}

abbrev payload : Payload
payload = record { sub = codes "u1"; sid = codes "s1"; remember = false }

store-HasUniqueIds : HasUniqueIds store
store-HasUniqueIds x = ground arith

abbrev handed : Rotated
handed = record {
  user = ann;
  refresh_token = create_refresh ⦃service = plain⦄ 6 ann (codes "s2") 1000 false;
}

abbrev rotated : Store
rotated = committed ⦃service = plain⦄ ticket (codes "s2") 6 store

first_commit : commit_rotation ⦃service = plain⦄ ticket (codes "s2") 6 store ≡ done handed rotated
unfolding commit_rotation text_eq verify_refresh create_refresh
first_commit = refl

rotation_race_example :
    (succeeded (commit_rotation ⦃service = plain⦄ ticket (codes "s3") 7 rotated) ≡ false)
    × IsSignedOut
        (codes "u1")
        (final (commit_rotation ⦃service = plain⦄ ticket (codes "s3") 7 rotated))
unfolding text_eq verify_refresh create_refresh
rotation_race_example =
    rotation_race ⦃service = plain⦄ ticket ticket (codes "s2") (codes "s3") 6 7 store rotated handed
      session store-HasUniqueIds refl refl refl first_commit

first_rotation : rotate ⦃service = plain⦄ token (codes "s2") 5 6 store ≡ done handed rotated
unfolding rotate text_eq verify_refresh create_refresh
first_rotation = refl

rotate_once_example :
    (succeeded (rotate ⦃service = plain⦄ token (codes "s3") 8 9 rotated) ≡ false)
    × IsSignedOut (codes "u1") (final (rotate ⦃service = plain⦄ token (codes "s3") 8 9 rotated))
unfolding verify_refresh create_refresh text_eq
rotate_once_example =
    rotate_once ⦃service = plain⦄ token (codes "s2") (codes "s3") 5 6 8 9 store rotated handed
      payload store-HasUniqueIds refl refl first_rotation

commit-check_refresh_example :
    succeeded (check_refresh ⦃service = plain⦄ handed.refresh_token 50 rotated) ≡ true
unfolding text_eq verify_refresh create_refresh
commit-check_refresh_example =
    commit-check_refresh ⦃service = plain⦄ ticket (codes "s2") 6 50 store rotated handed plain-Signs
      (omega arith) (omega arith) refl refl refl refl refl (omega arith) first_commit

abbrev signed_out : Store
signed_out = final (revoke_refresh_session ⦃service = plain⦄ token 4 store)

logout : revoke_refresh_session ⦃service = plain⦄ token 4 store ≡ done true signed_out
unfolding revoke_refresh_session text_eq verify_refresh create_refresh
logout = refl
