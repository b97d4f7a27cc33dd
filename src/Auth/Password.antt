-- ===== src/Auth/Password.antt =====
-- Passwords: backend/src/auth/password.service.ts. The key derivation and the random salt, both as
-- hexadecimal text, are the runtime's.
use proj_track_official.Prelude.{
  ℕ, ◌+◌, suc, Bool, true, false, ◌&&◌, ◌||◌, not, Option, none, some, List, [], ◌∷◌, ◌++◌, any,
  length, leb, ltb, ◌==◌, if◌then◌else◌,
}
use proj_track_official.Prelude.Text.{Text, codes, text_eq, is_space, is_empty, CaseTable, to_lower}
use proj_track_official.Prelude.Outcome.{bad_request, Result, ok}
use proj_track_official.Prelude.Check.{◌>>=◌, ◌>>◌, require}
pub mod Stored

-- `scryptSync(password, salt, 64).toString('hex')`
pub record Scrypt : Type 0 where
  pub derive : Text → Text → Text

-- `value.length`, in UTF-16 code units.
abbrev pub units : Text → ℕ
units [] = 0
units (c ∷ s) = let rest = units s in if ltb c 0x10000 then suc rest else suc (suc rest)

abbrev pub is_lower : ℕ → Bool
is_lower c = leb b'a' c && leb c b'z'

abbrev pub is_capital : ℕ → Bool
is_capital c = leb b'A' c && leb c b'Z'

abbrev pub is_digit : ℕ → Bool
is_digit c = leb b'0' c && leb c b'9'

abbrev pub is_special : ℕ → Bool
is_special c = not (is_lower c || is_capital c || is_digit c)

-- `assertStrongPassword`
unfoldable pub assert_strong_password : Text → Result (Unit {0})
assert_strong_password value = do
  require (leb 8 (units value)) (bad_request "Password must be at least 8 characters long.")
  require (any is_lower value && any is_capital value && any is_digit value && any is_special value)
      (bad_request "Password must include uppercase, lowercase, number, and special character.")
  require (not (any is_space value)) (bad_request "Password must not contain spaces.")

abbrev pub is_hex_digit : ℕ → Bool
is_hex_digit c = is_digit c || (leb b'a' c && leb c b'f') || (leb b'A' c && leb c b'F')

-- `/^[a-f0-9]{n}$/i`
abbrev pub is_hex : ℕ → Text → Bool
is_hex n s = (length s == n) && not (any (λ c. not (is_hex_digit c)) s)

-- `split(':')`
unfoldable pub split_colon : Text → List Text
split_colon [] = [] ∷ []
split_colon (c ∷ s) = let rest = split_colon s in if c == b':' then [] ∷ rest else first_with c rest
  where
    first_with : ℕ → List Text → List Text
    first_with c [] = (c ∷ []) ∷ []
    first_with c (part ∷ parts) = (c ∷ part) ∷ parts

module _ ⦃scrypt : Scrypt⦄ where
  -- `hash` with the salt that is drawn
  unfoldable pub hash : Text → Text → Text
  hash salt password = codes "scrypt:" ++ (salt ++ (codes ":" ++ scrypt.derive password salt))

  -- The comparison of the parts of what is stored.
  unfoldable pub compare_parts : ⦃t : CaseTable⦄ → Text → List Text → Bool
  compare_parts password (scheme ∷ (salt ∷ (hashed ∷ []))) =
      text_eq scheme (codes "scrypt")
      && is_hex 32 salt
      && is_hex 128 hashed
      && text_eq (scrypt.derive password salt) (to_lower hashed)
  compare_parts password _ = false

  -- `compare`
  unfoldable pub compare : ⦃t : CaseTable⦄ → Text → Option Text → Bool
  unfolding compare_parts split_colon
  compare password none = false
  compare password (some stored) = compare_parts password (split_colon stored)
