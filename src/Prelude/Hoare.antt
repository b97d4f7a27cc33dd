-- ===== src/Prelude/Hoare.antt =====
-- What a handler that returns has established, from what held of the store before it: the steps of a
-- `do` block are followed one by one, each with the fact that it did not throw.
use mathlib.Core.Bool.{Bool, true, false}
use mathlib.Core.Path.{◌≡◌, refl, subst}
use native.Mathlib.Omega.{arith}
use proj_track_official.Prelude.Outcome.{
  Error, Result, ok, err, Handler, Outcome, done, thrown, ◌>>=◌, get, return, require, lift,
}

pub record Hoare {S A : Type 0} (P : S → Type 0) (m : Handler S A) (Q : A → S → Type 0)
    : Type 0 where
  pub holds : (s s' : S) (a : A) → P s → m s ≡ done a s' → Q a s'

bind-holds :
    {S A B : Type 0} (o : Outcome S A) (f : A → Handler S B) (s' : S) (b : B)
    → elim o [ done a s ↦ f a s | thrown e s ↦ thrown e s ] ≡ done b s'
    → (a : A) × (s : S) × (o ≡ done a s) × (f a s ≡ done b s')
bind-holds (done a s) f s' b h = (a, s, refl, h)
bind-holds (thrown e s) f s' b h = absurd (ground arith)

module _ {S : Type 0} {P : S → Type 0} where
  pub Hoare-bind :
      {A B : Type 0} {m : Handler S A} {f : A → Handler S B} {R : A → S → Type 0}
      {Q : B → S → Type 0}
      → Hoare P m R
      → ((a : A) → Hoare (R a) (f a) Q)
      → Hoare P (m >>= f) Q
  Hoare-bind {m} {f} first later = record {
    holds = λ s s' b p h.
        let (a, mid, e, k) = bind-holds (m s) f s' b h in
        (later a).holds mid s' b (first.holds s mid a p e) k;
  }

  -- A fact that does not speak of the store.
  pub Hoare-fact :
      {X : Type 0} {A : Type 0} {m : Handler S A} {Q : A → S → Type 0}
      → (X → Hoare P m Q)
      → Hoare (λ s. X × P s) m Q
  Hoare-fact next = record { holds = λ s s' a (x, p) h. (next x).holds s s' a p h }

  pub Hoare-get : Hoare P get (λ a s. P a × P s)
  Hoare-get = record {
    holds = λ s s' a p h. subst (λ o. elim o [ done x y ↦ P x × P y | thrown e y ↦ Unit ]) h (p, p);
  }

  pub Hoare-lift : {A : Type 0} (r : Result A) → Hoare P (lift r) (λ a s. (r ≡ ok a) × P s)
  Hoare-lift (ok a) = record {
    holds = λ s s' b p h.
        subst (λ o. elim o [ done x y ↦ (ok a ≡ ok x) × P y | thrown e y ↦ Unit ]) h (refl, p);
  }
  Hoare-lift (err e) = record { holds = λ s s' b p h. absurd (ground arith) }

  pub Hoare-require : (b : Bool) (e : Error) → Hoare P (require b e) (λ a s. (b ≡ true) × P s)
  Hoare-require true e = record {
    holds = λ s s' a p h. (refl, subst (λ o. elim o [ done x y ↦ P y | thrown e y ↦ Unit ]) h p);
  }
  Hoare-require false e = record { holds = λ s s' a p h. absurd (ground arith) }

  pub Hoare-return :
      {B : Type 0} {Q : B → S → Type 0} (b : B) → ((s : S) → P s → Q b s) → Hoare P (return b) Q
  Hoare-return {Q} b q = record {
    holds = λ s s' b' p h. subst (λ o. elim o [ done x y ↦ Q x y | thrown e y ↦ Unit ]) h (q s p);
  }
