-- ===== src/Prelude/Outcome.antt =====
-- A request handler: it reads and writes the store, and returns a value or throws. What it wrote
-- before it threw stays written, except inside a transaction.
use mathlib.Core.Path.{◌≡◌, refl}
use mathlib.Core.Logic.{◌⊎◌, inl, inr}
use mathlib.Core.Bool.{Bool, true, false}
use Prim.Native.String.{String}

-- The exceptions that the services throw, by class; a message keeps its fixed text, and leaves out
-- what the source interpolates.
pub data Error : Type 0 where
  bad_request : String → Error
  unauthorized : String → Error
  forbidden : String → Error
  not_found : String → Error
  conflict : String → Error
  too_many_requests : String → Error
  internal : String → Error

pub data Result {ℓ} (A : Type ℓ) : Type ℓ where
  ok : A → Result A
  err : Error → Result A

pub data Outcome (S A : Type 0) : Type 0 where
  done : A → S → Outcome S A
  thrown : Error → S → Outcome S A

abbrev pub Handler : Type 0 → Type 0 → Type 0
Handler S A = S → Outcome S A

infixl 5 ◌>>=◌ ◌>>◌
abbrev pub ◌>>=◌ : {S A B : Type 0} → Handler S A → (A → Handler S B) → Handler S B
◌>>=◌ m f s = elim (m s) [ done a s' ↦ f a s' | thrown e s' ↦ thrown e s' ]

abbrev pub ◌>>◌ : {S A B : Type 0} → Handler S A → Handler S B → Handler S B
m >> k = m >>= λ _. k

abbrev pub return : {S A : Type 0} → A → Handler S A
return a s = done a s

abbrev pub throw : {S A : Type 0} → Error → Handler S A
throw e s = thrown e s

abbrev pub get : {S : Type 0} → Handler S S
get s = done s s

abbrev pub modify : {S : Type 0} → (S → S) → Handler S (Unit {0})
modify f s = done tt (f s)

-- `if (!test) throw e;`
abbrev pub require : {S : Type 0} → Bool → Error → Handler S (Unit {0})
require true e s = done tt s
require false e s = thrown e s

abbrev pub lift : {S A : Type 0} → Result A → Handler S A
lift (ok a) s = done a s
lift (err e) s = thrown e s

-- `$transaction`: a throw inside undoes the writes.
abbrev pub transaction : {S A : Type 0} → Handler S A → Handler S A
transaction m s = elim (m s) [ done a s' ↦ done a s' | thrown e s' ↦ thrown e s ]

abbrev pub final : {S A : Type 0} → Outcome S A → S
final (done a s) = s
final (thrown e s) = s

-- Did the handler return?
abbrev pub succeeded : {S A : Type 0} → Outcome S A → Bool
succeeded (done a s) = true
succeeded (thrown e s) = false

-- To split on how a handler ended and keep the equation.
pub Outcome-cases :
    {S A : Type 0} (o : Outcome S A)
    → ((a : A) × (s : S) × (o ≡ done a s)) ⊎ ((e : Error) × (s : S) × (o ≡ thrown e s))
Outcome-cases (done a s) = inl (a, s, refl)
Outcome-cases (thrown e s) = inr (e, s, refl)

pub Result-cases {ℓ} :
    {A : Type ℓ} (r : Result A) → ((e : Error) × (r ≡ err e)) ⊎ ((a : A) × (r ≡ ok a))
Result-cases (ok a) = inr (a, refl)
Result-cases (err e) = inl (e, refl)
