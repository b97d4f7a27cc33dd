-- ===== src/Auth/Refresh/Laws.antt =====
-- A refresh token that was made, when it is verified.
use proj_track_official.Prelude.{ℕ, ◌+◌, ◌≤◌, ◌<◌, ◌≡◌, Bool, some, arith}
use proj_track_official.Prelude.Text.{Text, codes, text_eq_refl}
use proj_track_official.Auth.User.{User}
use proj_track_official.Auth.Refresh.{
  Claims, TokenService, seconds, refresh_claims, create_refresh, verify_refresh,
}

module _ ⦃service : TokenService⦄ where
  -- What was signed is read back, under the same secret, as it was written.
  abbrev pub Signs : Type 0
  Signs = (c : Claims) → service.open_token (service.sign c) ≡ some c

  -- A token verifies, as what it was made for, from at most a minute before the second it was made in up
  -- to the second in which it expires.
  pub verify_refresh-create_refresh :
      (at now : ℕ) (u : User) (sid : Text) (ttl : ℕ) (remember : Bool)
      → Signs
      → seconds at ≤ seconds now + 60
      → seconds now < seconds at + seconds ttl
      → verify_refresh now (create_refresh at u sid ttl remember)
        ≡ some (record { sub = u.id; sid = sid; remember = remember })
  unfolding verify_refresh create_refresh
  verify_refresh-create_refresh at now u sid ttl remember signs made early =
      let own = text_eq_refl service.issuer in
      let whom = text_eq_refl service.audience in
      let kind = text_eq_refl (codes "refresh") in
      let opened = signs (refresh_claims at u sid ttl remember) in ground arith
