-- ===== src/Auth/Password/Stored.antt =====
-- What `hash` stores, `compare` accepts.
use proj_track_official.Prelude.{
  ℕ, ◌≡◌, refl, ◌∙◌, ap, true, false, some, [], ◌∷◌, ◌++◌, All, All-map, All-any_none, ◌==◌, arith,
}
use proj_track_official.Prelude.Text.{Text, codes, text_eq, text_eq_refl, CaseTable, to_lower}
use proj_track_official.Auth.Password.{
  Scrypt, is_hex_digit, is_hex, split_colon, hash, compare, compare_parts,
}

abbrev HasNoColon : Text → Type 0
HasNoColon = All (λ c. (c == b':') ≡ false)

split_colon-append :
    (s rest : Text) → HasNoColon s → split_colon (s ++ (b':' ∷ rest)) ≡ s ∷ split_colon rest
unfolding split_colon
split_colon-append [] rest h = refl
split_colon-append (c ∷ s) rest (p, h) = rw (p, split_colon-append s rest h) refl

split_colon_alone : (s : Text) → HasNoColon s → split_colon s ≡ s ∷ []
unfolding split_colon
split_colon_alone [] h = refl
split_colon_alone (c ∷ s) (p, h) = rw (p, split_colon_alone s h) refl

is_hex-HasNoColon : (n : ℕ) (s : Text) → is_hex n s ≡ true → HasNoColon s
is_hex-HasNoColon n s h =
    All-map (λ c. is_hex_digit c ≡ true) (λ c. (c == b':') ≡ false) (λ c d. ground arith) s
      (All-any_none is_hex_digit s (ground arith))

-- A password is accepted against what was stored of it, when the salt is 32 hexadecimal digits, and the
-- derived key 128 of them in lower case.
pub compare-hash :
    ⦃t : CaseTable⦄ ⦃scrypt : Scrypt⦄ (salt password : Text)
    → is_hex 32 salt ≡ true
    → is_hex 128 (scrypt.derive password salt) ≡ true
    → to_lower (scrypt.derive password salt) ≡ scrypt.derive password salt
    → compare password (some (hash salt password)) ≡ true
unfolding compare compare_parts hash text_eq
compare-hash ⦃t⦄ ⦃scrypt⦄ salt password hs hd lower =
    let key = scrypt.derive password salt in
    let parts : split_colon (codes "scrypt:" ++ (salt ++ (codes ":" ++ key)))
        ≡ codes "scrypt" ∷ (salt ∷ (key ∷ [])) =
      split_colon-append (codes "scrypt") (salt ++ (codes ":" ++ key))
        (refl, (refl, (refl, (refl, (refl, (refl, tt))))))
      ∙ ap (λ l. codes "scrypt" ∷ l)
          (split_colon-append salt key (is_hex-HasNoColon 32 salt hs)
            ∙ ap (λ l. salt ∷ l) (split_colon_alone key (is_hex-HasNoColon 128 key hd))) in
    rw parts (ground (arith, text_eq_refl key))
