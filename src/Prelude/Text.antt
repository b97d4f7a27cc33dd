-- ===== src/Prelude/Text.antt =====
-- The strings of the program: a list of code points, with the string methods that the services
-- call. Case mapping beyond ASCII is the runtime's table, and enters as the instance `CaseTable`.
use Prim.Native.Char.{code}
use Prim.Native.Nat.{ℕ, ◌+◌, ◌-◌}
use Prim.Native.String.{String}
use mathlib.Core.Path.{◌≡◌, refl, ap, sym, ◌∙◌}
use mathlib.Core.Bool.{Bool, true, false, not, ◌&&◌, ◌||◌}
use mathlib.Core.Logic.{◌↔◌}
use mathlib.Core.Option.{Option, none, some}
use mathlib.Core.List.{List, [], ◌∷◌, ◌++◌, reverse, reverse-reverse, reverse-append}
use native.Mathlib.Omega.{arith}
use proj_track_official.Prelude.Tests.{ltb, leb, ◌==◌, if◌then◌else◌}
use proj_track_official.Prelude.Lists.{All, All-reverse}

abbrev pub Text : Type 0
Text = List ℕ

-- A string literal of the source.
abbrev pub codes : String → Text
codes String.[] = []
codes (String.◌∷◌ c s) = code c ∷ codes s

-- `===` on strings.
unfoldable pub text_eq : Text → Text → Bool
text_eq [] [] = true
text_eq [] (d ∷ t) = false
text_eq (c ∷ s) [] = false
text_eq (c ∷ s) (d ∷ t) = c == d && text_eq s t

pub text_eq_iff : (s t : Text) → (text_eq s t ≡ true) ↔ (s ≡ t)
unfolding text_eq
text_eq_iff [] [] = ((λ _. refl), (λ _. refl))
text_eq_iff [] (d ∷ t) = ((λ h. cc), (λ h. cc))
text_eq_iff (c ∷ s) [] = ((λ h. cc), (λ h. cc))
text_eq_iff (c ∷ s) (d ∷ t) = ground (arith, text_eq_iff s t)

pub text_eq_refl : (s : Text) → text_eq s s ≡ true
text_eq_refl s = (text_eq_iff s s).1 refl

pub text_eq_sym : (s t : Text) → text_eq s t ≡ text_eq t s
text_eq_sym s t = ground (arith, text_eq_iff s t, text_eq_iff t s)

-- `includes` of an array of strings.
abbrev pub member : Text → List Text → Bool
member s [] = false
member s (t ∷ ts) = text_eq s t || member s ts

-- `!value` of a string.
abbrev pub is_empty : Text → Bool
is_empty [] = true
is_empty (c ∷ s) = false

-- Whitespace and line ends, as `trim` and the class `\s` read them.
unfoldable pub is_space : ℕ → Bool
is_space c =
    (leb 9 c && leb c 13)
    || (c == 32)
    || (c == 0xa0)
    || (c == 0x1680)
    || (leb 0x2000 c && leb c 0x200a)
    || (c == 0x2028)
    || (c == 0x2029)
    || (c == 0x202f)
    || (c == 0x205f)
    || (c == 0x3000)
    || (c == 0xfeff)

abbrev pub IsBlank : Text → Type 0
IsBlank = All (λ c. is_space c ≡ true)

pub trim_start : Text → Text
trim_start [] = []
trim_start (c ∷ s) = let rest = trim_start s in if is_space c then rest else c ∷ s

unfoldable pub trim : Text → Text
unfolding trim_start is_space
trim s = reverse (trim_start (reverse (trim_start s)))

-- `replace(/\s+/g, '_')`: the flag says that the last code point was a space.
underscore_from : Bool → Text → Text
underscore_from b [] = []
underscore_from false (c ∷ s) =
    let inside = underscore_from true s in
    let outside = underscore_from false s in if is_space c then b'_' ∷ inside else c ∷ outside
underscore_from true (c ∷ s) =
    let inside = underscore_from true s in
    let outside = underscore_from false s in if is_space c then inside else c ∷ outside

unfoldable pub underscore_spaces : Text → Text
unfolding underscore_from is_space
underscore_spaces s = underscore_from false s

-- The upper and the lower case of a code point that is not ASCII.
pub record CaseTable : Type 0 where
  pub wide_upper : ℕ → Text
  pub wide_lower : ℕ → Text

-- A table that maps nothing, for tests.
abbrev pub ascii_only : CaseTable
ascii_only = record { wide_upper = λ c. c ∷ []; wide_lower = λ c. c ∷ [] }

pub upper_code : ⦃t : CaseTable⦄ → ℕ → Text
upper_code ⦃t⦄ c =
    if ltb c 128 then (if leb b'a' c && leb c b'z' then c - 32 else c) ∷ [] else t.wide_upper c

pub lower_code : ⦃t : CaseTable⦄ → ℕ → Text
lower_code ⦃t⦄ c =
    if ltb c 128 then (if leb b'A' c && leb c b'Z' then c + 32 else c) ∷ [] else t.wide_lower c

unfoldable pub to_upper : ⦃t : CaseTable⦄ → Text → Text
unfolding upper_code
to_upper [] = []
to_upper (c ∷ s) = upper_code c ++ to_upper s

unfoldable pub to_lower : ⦃t : CaseTable⦄ → Text → Text
unfolding lower_code
to_lower [] = []
to_lower (c ∷ s) = lower_code c ++ to_lower s

-- `String(value ?? d)`
abbrev pub nullish : Option Text → Text → Text
nullish none d = d
nullish (some s) d = s

-- `String(value || d)`
abbrev pub falsy : Option Text → Text → Text
falsy none d = d
falsy (some []) d = d
falsy (some (c ∷ s)) d = c ∷ s

-- `left === right` where either may be null.
abbrev pub option_eq : Option Text → Option Text → Bool
option_eq none none = true
option_eq none (some t) = false
option_eq (some s) none = false
option_eq (some s) (some t) = text_eq s t

trim-trims : trim (codes "  a b\t ") ≡ codes "a b"
unfolding trim
trim-trims = refl

underscore_spaces-collapses :
    underscore_spaces (codes "needs  revision x") ≡ codes "needs_revision_x"
unfolding underscore_spaces
underscore_spaces-collapses = refl

to_upper-ascii : to_upper ⦃t = ascii_only⦄ (codes "late_z") ≡ codes "LATE_Z"
unfolding to_upper
to_upper-ascii = refl

-- Leading whitespace does not matter to `trim_start`.
trim_start-append_blank : (ws s : Text) → IsBlank ws → trim_start (ws ++ s) ≡ trim_start s
unfolding trim_start
trim_start-append_blank [] s h = refl
trim_start-append_blank (w ∷ ws) s (p, h) = rw p (trim_start-append_blank ws s h)

trim_start_solid : (c : ℕ) (s : Text) → is_space c ≡ false → trim_start (c ∷ s) ≡ c ∷ s
unfolding trim_start
trim_start_solid c s h = rw h

-- A text that begins and ends with no whitespace is what `trim` leaves of it with any whitespace
-- around it.
pub trim-padded :
    (before after core rest rest' : Text) (first last : ℕ)
    → IsBlank before
    → IsBlank after
    → core ≡ first ∷ rest
    → reverse core ≡ last ∷ rest'
    → is_space first ≡ false
    → is_space last ≡ false
    → trim (before ++ (core ++ after)) ≡ core
unfolding trim
trim-padded before after core rest rest' first last hb ha front back hf hl =
    rw (trim_start-append_blank before (core ++ after) hb) (
      rw (ap (λ t. trim_start (t ++ after)) front ∙ trim_start_solid first (rest ++ after) hf) (
        rw (ap (λ t. reverse (t ++ after)) (sym front) ∙ reverse-append core after) (
          rw
            (trim_start-append_blank (reverse after) (reverse core)
              (All-reverse (λ c. is_space c ≡ true) after ha))
            (rw (ap trim_start back ∙ trim_start_solid last rest' hl ∙ sym back)
              (reverse-reverse core)))))

abbrev pub IsSolid : Text → Type 0
IsSolid = All (λ c. is_space c ≡ false)

trim_start-IsSolid : (s : Text) → IsSolid s → trim_start s ≡ s
unfolding trim_start
trim_start-IsSolid [] h = refl
trim_start-IsSolid (c ∷ s) (p, h) = rw p refl

pub trim-IsSolid : (s : Text) → IsSolid s → trim s ≡ s
unfolding trim
trim-IsSolid s h = rw (trim_start-IsSolid s h) (
    rw (trim_start-IsSolid (reverse s) (All-reverse (λ c. is_space c ≡ false) s h))
      (reverse-reverse s))

-- A code point that upper case leaves.
abbrev pub is_upper_stable : ℕ → Bool
is_upper_stable c = ltb c 128 && not (leb b'a' c && leb c b'z')

pub to_upper_stable :
    ⦃t : CaseTable⦄ (s : Text) → All (λ c. is_upper_stable c ≡ true) s → to_upper s ≡ s
unfolding to_upper upper_code
to_upper_stable [] h = refl
to_upper_stable (c ∷ s) (p, h) =
    let later = to_upper_stable s h in
    let same : upper_code c ≡ c ∷ [] = ground arith in rw (same, later) refl
