-- ===== src/Prelude/Check.antt =====
-- Checks that only read: a chain of them is a `do` block over `Result`.
use mathlib.Core.Bool.{Bool, true, false}
use proj_track_official.Prelude.Outcome.{Error, Result, ok, err}

abbrev pub require : Bool → Error → Result (Unit {0})
require test refusal = elim test [ true ↦ ok tt | false ↦ err refusal ]

infixl 5 ◌>>=◌ ◌>>◌
abbrev pub ◌>>=◌ : {A B : Type 0} → Result A → (A → Result B) → Result B
check >>= next = elim check [ err refusal ↦ err refusal | ok value ↦ next value ]

abbrev pub ◌>>◌ : {B : Type 0} → Result (Unit {0}) → Result B → Result B
check >> next = check >>= (λ passed. next)
