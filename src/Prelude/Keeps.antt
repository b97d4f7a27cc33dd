-- ===== src/Prelude/Keeps.antt =====
-- Handlers that keep a property of the store, whether they return or throw: the steps of a `do` block
-- are checked one by one.
use mathlib.Core.Bool.{Bool, true, false}
use proj_track_official.Prelude.Outcome.{
  Error, Result, ok, err, Handler, done, thrown, ◌>>=◌, get, require, lift, final, Outcome,
}

pub record Keeps {S A : Type 0} (P : S → Type 0) (m : Handler S A) : Type 0 where
  pub kept : (s : S) → P s → P (final (m s))

module _ {S : Type 0} {P : S → Type 0} where
  kept-after :
      {A B : Type 0} (o : Outcome S A) (f : A → Handler S B)
      → P (final o)
      → ((a : A) → Keeps P (f a))
      → P (final (elim o [ done a s' ↦ f a s' | thrown e s' ↦ thrown e s' ]))
  kept-after (done a s') f holds later = (later a).kept s' holds
  kept-after (thrown e s') f holds later = holds

  pub Keeps-bind :
      {A B : Type 0} {m : Handler S A} {f : A → Handler S B}
      → Keeps P m
      → ((a : A) → Keeps P (f a))
      → Keeps P (m >>= f)
  Keeps-bind {A} {B} {m} {f} first later = record {
    kept = λ s holds. kept-after (m s) f (first.kept s holds) later;
  }

  pub Keeps-get : Keeps P get
  Keeps-get = record { kept = λ s holds. holds }

  pub Keeps-lift : {A : Type 0} (r : Result A) → Keeps P (lift r)
  Keeps-lift r = record { kept = go r }
    where
      go : {A : Type 0} (r : Result A) (s : S) → P s → P (final (lift r s))
      go (ok a) s holds = holds
      go (err e) s holds = holds

  pub Keeps-require : (b : Bool) (e : Error) → Keeps P (require b e)
  Keeps-require b e = record { kept = go b }
    where
      go : (b : Bool) (s : S) → P s → P (final (require b e s))
      go true s holds = holds
      go false s holds = holds
