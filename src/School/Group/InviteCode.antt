-- ===== src/School/Group/InviteCode.antt =====
-- Invite codes: a code is read back as it was made.
use proj_track_official.Prelude.{
  ℕ, zero, suc, ◌<◌, ◌+◌, ◌%◌, ◌≡◌, refl, Bool, true, false, not, List, [], ◌∷◌, ◌++◌, All,
  All-append, All-map, All-any_none, length, arith, ◌&&◌,
}
use proj_track_official.Prelude.Text.{
  Text, codes, trim, trim-IsSolid, is_space, CaseTable, to_upper, to_upper_stable, is_upper_stable,
}
use proj_track_official.School.Group.Create.{alphabet, letter_at, token, build_invite_code}

-- A code point that neither `trim` nor `toUpperCase` changes.
abbrev is_plain : ℕ → Bool
is_plain c = not (is_space c) && is_upper_stable c

abbrev IsPlain : Text → Type 0
IsPlain = All (λ c. is_plain c ≡ true)

alphabet-IsPlain : IsPlain alphabet
unfolding is_space
alphabet-IsPlain = All-any_none is_plain alphabet refl

letter_at-IsPlain : (letters : Text) (i : ℕ) → IsPlain letters → IsPlain (letter_at letters i)
letter_at-IsPlain [] i h = tt
letter_at-IsPlain (c ∷ rest) zero (p, h) = (p, tt)
letter_at-IsPlain (c ∷ rest) (suc i) (p, h) = letter_at-IsPlain rest i h

token-IsPlain : (bytes : List ℕ) → IsPlain (token bytes)
token-IsPlain [] = tt
token-IsPlain (byte ∷ bytes) =
    All-append (λ c. is_plain c ≡ true) (letter_at alphabet (byte % 32)) (token bytes)
      (letter_at-IsPlain alphabet (byte % 32) alphabet-IsPlain) (token-IsPlain bytes)

build_invite_code-IsPlain : (bytes : List ℕ) → IsPlain (build_invite_code bytes)
unfolding build_invite_code is_space
build_invite_code-IsPlain bytes =
    All-append (λ c. is_plain c ≡ true) (codes "PRJ-") (token bytes)
      (All-any_none is_plain (codes "PRJ-") refl) (token-IsPlain bytes)

-- What the join and the access check make of an invite code, trimmed and in upper case, is the code as
-- it was drawn, whatever the random bytes were.
pub to_upper-build_invite_code :
    ⦃t : CaseTable⦄ (bytes : List ℕ)
    → to_upper (trim (build_invite_code bytes)) ≡ build_invite_code bytes
to_upper-build_invite_code bytes =
    let plain = build_invite_code-IsPlain bytes in
    let solid =
      All-map (λ c. is_plain c ≡ true) (λ c. is_space c ≡ false) (λ c h. ground arith)
        (build_invite_code bytes) plain in
    let upper =
      All-map (λ c. is_plain c ≡ true) (λ c. is_upper_stable c ≡ true) (λ c h. ground arith)
        (build_invite_code bytes) plain in
    rw (trim-IsSolid (build_invite_code bytes) solid)
      (to_upper_stable (build_invite_code bytes) upper)

letter_at-length : (letters : Text) (i : ℕ) → i < length letters → length (letter_at letters i) ≡ 1
letter_at-length [] i h = absurd (omega arith)
letter_at-length (c ∷ rest) zero h = refl
letter_at-length (c ∷ rest) (suc i) h = letter_at-length rest i (omega arith)

length-append : (s u : Text) → length (s ++ u) ≡ length s + length u
length-append [] u = omega arith
length-append (c ∷ s) u = omega (arith, length-append s u)

length-token : (bytes : List ℕ) → length (token bytes) ≡ length bytes
length-token [] = refl
length-token (byte ∷ bytes) =
    let letter = letter_at-length alphabet (byte % 32) (omega arith) in
    let rest = length-token bytes in
    let sum = length-append (letter_at alphabet (byte % 32)) (token bytes) in
    omega (arith, letter, rest, sum)

-- No byte is out of the alphabet's range: a code has four characters and one for each byte.
pub length-build_invite_code :
    (bytes : List ℕ) → length (build_invite_code bytes) ≡ 4 + length bytes
unfolding build_invite_code
length-build_invite_code bytes = omega (arith, length-token bytes)
