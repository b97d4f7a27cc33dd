-- ===== src/Prelude/Table.antt =====
-- A database table as the list of its rows, and the bulk operations of the client that the services
-- call on it: a `where` clause is a test on rows, a `data` clause a function on rows.
use mathlib.Core.Path.{◌≡◌, refl, ap, subst}
use mathlib.Core.Bool.{Bool, true, false}
use mathlib.Core.Logic.{inl, inr}
use mathlib.Core.List.{List, [], ◌∷◌, ◌++◌}
use mathlib.Core.Option.{none, some}
use Prim.Native.Nat.{◌+◌, ◌≤◌, ◌<◌}
use native.Mathlib.Omega.{arith}
use proj_track_official.Prelude.Tests.{if◌then◌else◌, Bool-cases}
use proj_track_official.Prelude.Lists.{All, keep, count, find, any}

module _ {ℓ} {A : Type ℓ} where
  -- `updateMany({ where, data })`; the number of rows changed is `count test rows`.
  abbrev pub update_many : (A → Bool) → (A → A) → List A → List A
  update_many test change [] = []
  update_many test change (x ∷ xs) = (if test x then change x else x) ∷ update_many test change xs

  -- `deleteMany({ where })`
  abbrev pub delete_many : (A → Bool) → List A → List A
  delete_many test [] = []
  delete_many test (x ∷ xs) = let rest = delete_many test xs in if test x then rest else x ∷ rest

  -- `update({ where: { key } })`: the row that the key leads to.
  abbrev pub update_one : (A → Bool) → (A → A) → List A → List A
  update_one test change [] = []
  update_one test change (x ∷ xs) =
      let rest = update_one test change xs in if test x then change x ∷ xs else x ∷ rest

  pub update_one-All {κ} :
      (P : A → Type κ) (test : A → Bool) (change : A → A) (xs : List A) {x : A}
      → find test xs ≡ some x
      → P (change x)
      → All P xs
      → All P (update_one test change xs)
  update_one-All P test change [] e p h = tt
  update_one-All P test change (y ∷ ys) {x} e p (q, h) = elim (Bool-cases (test y)) [
    | inl f ↦ let is_x : x ≡ y = ground arith in rw f (subst (λ z. P (change z)) is_x p, h)
    | inr f ↦ rw f (q, update_one-All P test change ys {x = x} (ground arith) p h)
  ]

  -- What each changed row satisfies, and each other row had, holds of all rows afterwards.
  pub update_many-All {κ} :
      (P : A → Type κ) (test : A → Bool) (change : A → A)
      → ((x : A) → P x → test x ≡ true → P (change x))
      → (xs : List A) → All P xs
      → All P (update_many test change xs)
  update_many-All P test change step [] h = tt
  update_many-All P test change step (x ∷ xs) (p, h) = elim (Bool-cases (test x)) [
    | inl e ↦ rw e (step x p e, update_many-All P test change step xs h)
    | inr e ↦ rw e (p, update_many-All P test change step xs h)
  ]

  pub update_many-idle :
      (test : A → Bool) (change : A → A) (xs : List A)
      → count test xs ≡ 0
      → update_many test change xs ≡ xs
  update_many-idle test change [] h = refl
  update_many-idle test change (x ∷ xs) h = elim (Bool-cases (test x)) [
    | inl e ↦ absurd (ground arith)
    | inr e ↦ rw e (ap (λ l. x ∷ l) (update_many-idle test change xs (ground arith)))
  ]

  -- The same where the changed rows need no earlier fact.
  pub update_many-establishes {κ} :
      (P : A → Type κ) (test : A → Bool) (change : A → A)
      → ((x : A) → test x ≡ true → P (change x))
      → ((x : A) → test x ≡ false → P x)
      → (xs : List A) → All P (update_many test change xs)
  update_many-establishes P test change yes_case no_case [] = tt
  update_many-establishes P test change yes_case no_case (x ∷ xs) = elim (Bool-cases (test x)) [
    | inl e ↦ rw e (yes_case x e, update_many-establishes P test change yes_case no_case xs)
    | inr e ↦ rw e (no_case x e, update_many-establishes P test change yes_case no_case xs)
  ]

  pub delete_many-All {κ} :
      (P : A → Type κ) (test : A → Bool) (xs : List A) → All P xs → All P (delete_many test xs)
  delete_many-All P test [] h = tt
  delete_many-All P test (x ∷ xs) (p, h) = elim (Bool-cases (test x)) [
    | inl e ↦ rw e (delete_many-All P test xs h)
    | inr e ↦ rw e (p, delete_many-All P test xs h)
  ]

  -- No row that the test picks is left.
  pub delete_many-none : (test : A → Bool) (xs : List A) → count test (delete_many test xs) ≡ 0
  delete_many-none test [] = refl
  delete_many-none test (x ∷ xs) = elim (Bool-cases (test x)) [
    | inl e ↦ rw e (delete_many-none test xs)
    | inr e ↦ rw e (rw e (delete_many-none test xs))
  ]

  -- A count of rows that an update neither brings in nor takes out is unchanged.
  pub count-update_many :
      (p test : A → Bool) (change : A → A)
      → ((x : A) → test x ≡ true → p (change x) ≡ p x)
      → (xs : List A) → count p (update_many test change xs) ≡ count p xs
  count-update_many p test change same [] = refl
  count-update_many p test change same (x ∷ xs) = elim (Bool-cases (test x)) [
    | inl e ↦ rw (e, same x e, count-update_many p test change same xs)
    | inr e ↦ rw (e, count-update_many p test change same xs)
  ]

module _ {ℓ} {A : Type ℓ} where
  -- A lookup by a column that an update leaves alone.
  pub find-update_many :
      (p test : A → Bool) (change : A → A)
      → ((x : A) → p (change x) ≡ p x)
      → (xs : List A) {x : A} → find p xs ≡ some x
      → find p (update_many test change xs) ≡ some (if test x then change x else x)
  find-update_many p test change same [] h = absurd (ground arith)
  find-update_many p test change same (y ∷ ys) {x} h = elim (Bool-cases (p y)) [
    | inl e ↦ let is_x : y ≡ x = ground arith in ground (arith, same y)
    | inr e ↦
        let later = find-update_many p test change same ys {x = x} (ground arith) in
        ground (arith, same y)
  ]

  pub count-find-none : (p : A → Bool) (xs : List A) → find p xs ≡ none → count p xs ≡ 0
  count-find-none p [] h = refl
  count-find-none p (x ∷ xs) h = elim (Bool-cases (p x)) [
    | inl e ↦ absurd (ground arith)
    | inr e ↦ rw e (count-find-none p xs (ground arith))
  ]

  pub count-any_none : (p : A → Bool) (xs : List A) → any p xs ≡ false → count p xs ≡ 0
  count-any_none p [] h = refl
  count-any_none p (x ∷ xs) h = elim (Bool-cases (p x)) [
    | inl e ↦ absurd (ground arith)
    | inr e ↦ rw e (count-any_none p xs (ground arith))
  ]

  pub find-any-none :
      (p q : A → Bool)
      → ((x : A) → p x ≡ true → q x ≡ true)
      → (xs : List A) → any q xs ≡ false
      → find p xs ≡ none
  find-any-none p q h [] e = refl
  find-any-none p q h (x ∷ xs) e = elim (Bool-cases (p x)) [
    | inl f ↦ absurd (ground (arith, h x f))
    | inr f ↦ rw f (find-any-none p q h xs (ground arith))
  ]

  -- The row that an update by a key changes is found changed.
  pub find-update_one :
      (test : A → Bool) (change : A → A) (xs : List A) {x : A}
      → find test xs ≡ some x
      → test (change x) ≡ true
      → find test (update_one test change xs) ≡ some (change x)
  find-update_one test change [] h e = absurd (ground arith)
  find-update_one test change (y ∷ ys) {x} h e = elim (Bool-cases (test y)) [
    | inl f ↦ let is_x : y ≡ x = ground arith in rw f (rw is_x (rw e refl))
    | inr f ↦ rw f (rw f (find-update_one test change ys {x = x} (ground arith) e))
  ]

  pub find-update_many-none :
      (p test : A → Bool) (change : A → A)
      → ((x : A) → p (change x) ≡ p x)
      → (xs : List A) → find p xs ≡ none
      → find p (update_many test change xs) ≡ none
  find-update_many-none p test change same [] h = refl
  find-update_many-none p test change same (y ∷ ys) h = elim (Bool-cases (p y)) [
    | inl e ↦ absurd (ground arith)
    | inr e ↦
        let later = find-update_many-none p test change same ys (ground arith) in
        ground (arith, same y)
  ]

  pub find-append :
      (p : A → Bool) (xs : List A) (y : A)
      → find p xs ≡ none
      → p y ≡ true
      → find p (xs ++ y ∷ []) ≡ some y
  find-append p [] y h e = rw e
  find-append p (x ∷ xs) y h e = elim (Bool-cases (p x)) [
    | inl f ↦ absurd (ground arith)
    | inr f ↦ rw f (find-append p xs y (ground arith) e)
  ]

  pub find-append_found :
      (p : A → Bool) (xs : List A) (y : A) {x : A}
      → find p xs ≡ some x
      → find p (xs ++ y ∷ []) ≡ some x
  find-append_found p [] y h = absurd (ground arith)
  find-append_found p (z ∷ xs) y {x} h = elim (Bool-cases (p z)) [
    | inl f ↦ ground arith
    | inr f ↦ rw f (find-append_found p xs y {x = x} (ground arith))
  ]

  -- A row that is found is counted.
  pub count-pos :
      (p q : A → Bool) (xs : List A) {x : A} → find p xs ≡ some x → q x ≡ true → 1 ≤ count q xs
  count-pos p q [] h e = absurd (ground arith)
  count-pos p q (y ∷ ys) {x} h e = elim (Bool-cases (p y)) [
    | inl f ↦
        let is_x : y ≡ x = ground arith in let hit : q y ≡ true = rw is_x e in rw hit (omega arith)
    | inr f ↦ elim (Bool-cases (q y)) [
      | inl g ↦ rw g (omega arith)
      | inr g ↦ rw g (count-pos p q ys {x = x} (ground arith) e)
    ]
  ]

  pub count_mono :
      (p q : A → Bool)
      → ((x : A) → p x ≡ true → q x ≡ true)
      → (xs : List A) → count p xs ≤ count q xs
  count_mono p q h [] = omega arith
  count_mono p q h (x ∷ xs) = elim (Bool-cases (p x)) [
    | inl e ↦ rw (e, h x e) (omega (arith, count_mono p q h xs))
    | inr e ↦ elim (Bool-cases (q x)) [
      | inl f ↦ rw (e, f) (omega (arith, count_mono p q h xs))
      | inr f ↦ rw (e, f) (count_mono p q h xs)
    ]
  ]

  pub count-append : (p : A → Bool) (xs ys : List A) → count p (xs ++ ys) ≡ count p xs + count p ys
  count-append p [] ys = omega arith
  count-append p (x ∷ xs) ys = elim (Bool-cases (p x)) [
    | inl e ↦ rw e (omega (arith, count-append p xs ys))
    | inr e ↦ rw e (count-append p xs ys)
  ]

  -- An update whose result no changed or unchanged row passes leaves none that passes.
  pub count-update_many_zero :
      (p test : A → Bool) (change : A → A)
      → ((x : A) → test x ≡ true → p (change x) ≡ false)
      → ((x : A) → test x ≡ false → p x ≡ false)
      → (xs : List A) → count p (update_many test change xs) ≡ 0
  count-update_many_zero p test change gone never [] = refl
  count-update_many_zero p test change gone never (x ∷ xs) = elim (Bool-cases (test x)) [
    | inl e ↦ rw (e, gone x e) (count-update_many_zero p test change gone never xs)
    | inr e ↦ rw (e, never x e) (count-update_many_zero p test change gone never xs)
  ]

  -- A row that only the wider test picks makes its count the larger.
  pub count_strict :
      (p q : A → Bool)
      → ((x : A) → p x ≡ true → q x ≡ true)
      → (found : A → Bool) (xs : List A) {x : A} → find found xs ≡ some x
      → q x ≡ true
      → p x ≡ false
      → count p xs < count q xs
  count_strict p q h found [] e hq hp = absurd (ground arith)
  count_strict p q h found (y ∷ ys) {x} e hq hp = elim (Bool-cases (found y)) [
    | inl f ↦
        let is_x : y ≡ x = ground arith in
        let on : q y ≡ true = rw is_x hq in
        let off : p y ≡ false = rw is_x hp in rw (on, off) (omega (arith, count_mono p q h ys))
    | inr f ↦
        let later = count_strict p q h found ys {x = x} (ground arith) hq hp in
        elim (Bool-cases (p y)) [
          | inl g ↦ rw (g, h y g) (omega arith)
          | inr g ↦ elim (Bool-cases (q y)) [
            | inl k ↦ rw (g, k) (omega arith)
            | inr k ↦ rw (g, k) later
          ]
        ]
  ]

  pub keep-append : (p : A → Bool) (xs ys : List A) → keep p (xs ++ ys) ≡ keep p xs ++ keep p ys
  keep-append p [] ys = refl
  keep-append p (x ∷ xs) ys = elim (Bool-cases (p x)) [
    | inl e ↦ rw e (ap (λ l. x ∷ l) (keep-append p xs ys))
    | inr e ↦ rw e (keep-append p xs ys)
  ]

  pub keep-eq-nil : (p : A → Bool) (xs : List A) → count p xs ≡ 0 → keep p xs ≡ []
  keep-eq-nil p [] h = refl
  keep-eq-nil p (x ∷ xs) h = elim (Bool-cases (p x)) [
    | inl e ↦ absurd (ground arith)
    | inr e ↦ rw e (keep-eq-nil p xs (ground arith))
  ]

  pub count-of-keep_nil : (p : A → Bool) (xs : List A) → keep p xs ≡ [] → count p xs ≡ 0
  count-of-keep_nil p [] h = refl
  count-of-keep_nil p (x ∷ xs) h = elim (Bool-cases (p x)) [
    | inl e ↦ absurd (ground arith)
    | inr e ↦ rw e (count-of-keep_nil p xs (ground arith))
  ]

  -- An update that takes each row it changes out of `p` leaves `p` what the changed rows leave of `q`.
  pub count-after_update :
      (p test q : A → Bool) (change : A → A)
      → ((x : A) → test x ≡ true → p (change x) ≡ false)
      → ((x : A) → p x ≡ true → q x ≡ true)
      → ((x : A) → test x ≡ true → q x ≡ true)
      → (xs : List A) → count p (update_many test change xs) + count test xs ≤ count q xs
  count-after_update p test q change out pq tq [] = omega arith
  count-after_update p test q change out pq tq (x ∷ xs) = elim (Bool-cases (test x)) [
    | inl e ↦
        rw (e, out x e, tq x e) (omega (arith, count-after_update p test q change out pq tq xs))
    | inr e ↦ elim (Bool-cases (p x)) [
      | inl f ↦ rw (e, f, pq x f) (omega (arith, count-after_update p test q change out pq tq xs))
      | inr f ↦ elim (Bool-cases (q x)) [
        | inl g ↦ rw (e, f, g) (omega (arith, count-after_update p test q change out pq tq xs))
        | inr g ↦ rw (e, f, g) (count-after_update p test q change out pq tq xs)
      ]
    ]
  ]
