-- ===== src/Prelude/Counts.antt =====
-- Counts and lookups of rows through updates, deletions and selections.
use mathlib.Core.Path.{subst, ◌≡◌, refl, ap}
use mathlib.Core.Bool.{Bool, true, false, not, ◌&&◌}
use mathlib.Core.Logic.{inl, inr}
use mathlib.Core.Option.{some}
use mathlib.Core.List.{List, [], ◌∷◌}
use Prim.Native.Nat.{suc}
use native.Mathlib.Omega.{arith}
use proj_track_official.Prelude.Tests.{ltb, Bool-cases}
use proj_track_official.Prelude.Lists.{find_sound, length, keep, count, find, any}
use proj_track_official.Prelude.Table.{update_one, update_many, delete_many}

module _ {ℓ} {A : Type ℓ} where
  -- An update by another key leaves a lookup.
  pub find-update_one_other :
      (p q : A → Bool) (change : A → A)
      → ((x : A) → q x ≡ true → p x ≡ false)
      → ((x : A) → q x ≡ true → p (change x) ≡ false)
      → (xs : List A) → find p (update_one q change xs) ≡ find p xs
  find-update_one_other p q change old new [] = refl
  find-update_one_other p q change old new (x ∷ xs) =
      let rest = find-update_one_other p q change old new xs in
      elim (Bool-cases (q x)) [
        | inl e ↦ rw (e, new x e, old x e) refl
        | inr e ↦ elim (Bool-cases (p x)) [ inl f ↦ rw (e, f) refl | inr f ↦ rw (e, f) rest ]
      ]

  pub count-delete_many :
      (p test : A → Bool) (xs : List A)
      → count p (delete_many test xs) ≡ count (λ x. p x && not (test x)) xs
  count-delete_many p test [] = refl
  count-delete_many p test (x ∷ xs) =
      let rest = count-delete_many p test xs in
      elim (Bool-cases (test x)) [
        | inl e ↦ elim (Bool-cases (p x)) [ inl f ↦ rw (e, f) rest | inr f ↦ rw (e, f) rest ]
        | inr e ↦ elim (Bool-cases (p x)) [
          | inl f ↦ rw (e, f) (ap suc rest)
          | inr f ↦ rw (e, f) rest
        ]
      ]

  pub length-keep : (p : A → Bool) (xs : List A) → length (keep p xs) ≡ count p xs
  length-keep p [] = refl
  length-keep p (x ∷ xs) = elim (Bool-cases (p x)) [
    | inl e ↦ rw e (ap suc (length-keep p xs))
    | inr e ↦ rw e (length-keep p xs)
  ]

  pub count-keep : (p q : A → Bool) (xs : List A) → count p (keep q xs) ≡ count (λ x. q x && p x) xs
  count-keep p q [] = refl
  count-keep p q (x ∷ xs) =
      let rest = count-keep p q xs in
      elim (Bool-cases (q x)) [
        | inl e ↦ elim (Bool-cases (p x)) [
          | inl f ↦ rw (e, f) (ap suc rest)
          | inr f ↦ rw (e, f) rest
        ]
        | inr e ↦ rw e rest
      ]

  -- A test passes somewhere exactly when it counts something.
  pub any-count : (p : A → Bool) (xs : List A) → any p xs ≡ ltb 0 (count p xs)
  any-count p [] = refl
  any-count p (x ∷ xs) = elim (Bool-cases (p x)) [
    | inl e ↦ rw e (ground arith)
    | inr e ↦ rw e (any-count p xs)
  ]

  pub count_same :
      (p q : A → Bool) → ((x : A) → p x ≡ q x) → (xs : List A) → count p xs ≡ count q xs
  count_same p q h [] = refl
  count_same p q h (x ∷ xs) = elim (Bool-cases (q x)) [
    | inl e ↦ rw (h x, e) (ap suc (count_same p q h xs))
    | inr e ↦ rw (h x, e) (count_same p q h xs)
  ]

  -- An update after which exactly the changed rows pass.
  pub count-update_many_test :
      (p test : A → Bool) (change : A → A)
      → ((x : A) → test x ≡ true → p (change x) ≡ true)
      → ((x : A) → test x ≡ false → p x ≡ false)
      → (xs : List A) → count p (update_many test change xs) ≡ count test xs
  count-update_many_test p test change hit miss [] = refl
  count-update_many_test p test change hit miss (x ∷ xs) = elim (Bool-cases (test x)) [
    | inl e ↦ rw (e, hit x e) (ap suc (count-update_many_test p test change hit miss xs))
    | inr e ↦ rw (e, miss x e) (count-update_many_test p test change hit miss xs)
  ]

  -- A row that two keys lead to, changed by the one, is found changed by the other.
  pub find-update_one_by :
      (p q : A → Bool) (change : A → A) (xs : List A) {x : A}
      → find p xs ≡ some x
      → find q xs ≡ some x
      → p (change x) ≡ true
      → find p (update_one q change xs) ≡ some (change x)
  find-update_one_by p q change [] e f h = absurd (ground arith)
  find-update_one_by p q change (y ∷ ys) {x} e f h = elim (Bool-cases (q y)) [
    | inl hit ↦ let is_x : y ≡ x = ground arith in rw hit (rw is_x (rw h refl))
    | inr miss ↦ elim (Bool-cases (p y)) [
      | inl on ↦
          let is_x : y ≡ x = ground arith in
          let own : q x ≡ true = find_sound q (y ∷ ys) f in
          absurd (let off : q x ≡ false = subst (λ z. q z ≡ false) is_x miss in ground arith)
      | inr off ↦
          rw miss
            (rw off (find-update_one_by p q change ys {x = x} (ground arith) (ground arith) h))
    ]
  ]
