-- ===== src/Deletion/Request/Laws.antt =====
-- What the operations on requests keep, and which they refuse.
use proj_track_official.Prelude.{
  ℕ, ◌≤◌, ◌≡◌, refl, Bool, true, false, Option, none, some, List, [], ◌∷◌, find, any, count, arith,
  Option-cases, Bool-cases, inl, inr, subst,
}
use proj_track_official.Prelude.Text.{
  Text, codes, text_eq, text_eq_iff, trim, CaseTable, to_upper, underscore_spaces, nullish,
}
use proj_track_official.Prelude.Table.{update_one, count-append, count-any_none}
use proj_track_official.Prelude.Outcome.{final, succeeded}
use proj_track_official.Deletion.Store.{
  RequestStatus, pending, approved, denied, cancelled, Request, Store,
}
use proj_track_official.Deletion.Request.{
  normalize_status, status_text, is_pending, has_pending, new_request, create_request, closed,
  cancel_own_request, approve, deny, trimmed,
}

-- No account has two pending requests.
abbrev pub HasOnePendingEach : Store → Type 0
HasOnePendingEach s = (user : Text) → count (has_pending user) s.requests ≤ 1

count-update_one-le :
    (p test : Request → Bool) (change : Request → Request)
    → ((r : Request) → p (change r) ≡ true → p r ≡ true)
    → (rows : List Request) → count p (update_one test change rows) ≤ count p rows
count-update_one-le p test change same [] = omega arith
count-update_one-le p test change same (r ∷ rows) =
    let rest = count-update_one-le p test change same rows in
    let here = same r in
    elim (Bool-cases (test r)) [
      | inr e ↦ elim (Bool-cases (p r)) [
        | inl f ↦ rw (e, f) (omega (arith, rest))
        | inr f ↦ rw (e, f) rest
      ]
      | inl e ↦ elim (Bool-cases (p (change r))) [
        | inl f ↦ rw (e, f, here f) (omega arith)
        | inr f ↦ elim (Bool-cases (p r)) [
          | inl g ↦ rw (e, f, g) (omega arith)
          | inr g ↦ rw (e, f, g) (omega arith)
        ]
      ]
    ]

-- Whether it returns or throws, a request for deletion leaves no account with two pending requests, if
-- there was none before.
pub create_request-HasOnePendingEach :
    (id requester : Text) (confirmation reason actor : Option Text) (s : Store)
    → HasOnePendingEach s
    → HasOnePendingEach (final (create_request id requester confirmation reason actor s))
unfolding create_request
create_request-HasOnePendingEach id requester confirmation reason actor s one user =
    elim (Bool-cases (any (has_pending requester) s.requests)) [
      | inl taken ↦ ground (arith, one user)
      | inr free ↦
          let none_yet = count-any_none (has_pending requester) s.requests free in
          let key = text_eq_iff requester user in
          let row = new_request id requester confirmation reason in
          let sum = count-append (has_pending user) s.requests (row ∷ []) in
          elim (Bool-cases (text_eq requester user)) [
            | inr other ↦ ground (arith, one user, sum)
            | inl same ↦
                let zero_of : count (has_pending user) s.requests ≡ 0 =
                  subst (λ u. count (has_pending u) s.requests ≡ 0) (key.0 same) none_yet in
                ground (arith, one user, sum)
          ]
    ]

closed-le :
    (x id reviewer : Text) (now : ℕ) (status : RequestStatus) (remark : Option Text) (s : Store)
    → is_pending status ≡ false
    → count
        (has_pending x)
        (update_one (λ r. text_eq r.id id) (closed status reviewer now remark) s.requests)
      ≤ count (has_pending x) s.requests
closed-le x id reviewer now status remark s over =
    count-update_one-le (has_pending x) (λ r. text_eq r.id id) (closed status reviewer now remark)
      (λ r e. absurd (ground arith)) s.requests

module _ ⦃t : CaseTable⦄ where
  -- A status that the database holds is read as itself.
  pub normalize_status-status_text :
      (x : RequestStatus) → normalize_status (some (status_text x)) ≡ x
  unfolding normalize_status text_eq to_upper underscore_spaces trim
  normalize_status-status_text pending = refl
  normalize_status-status_text approved = refl
  normalize_status-status_text denied = refl
  normalize_status-status_text cancelled = refl

  -- A request that is decided or cancelled stays as it is: to cancel, approve or deny it throws, and
  -- nothing is written.
  pub closed_request-unchanged :
      (id user : Text) (now : ℕ) (actor remark : Option Text) (s : Store) (r : Request)
      → find (λ x. text_eq x.id id) s.requests ≡ some r
      → is_pending r.status ≡ false
      → (succeeded (cancel_own_request id user now actor s) ≡ false)
        × (final (cancel_own_request id user now actor s) ≡ s)
        × (succeeded (approve id now actor s) ≡ false)
        × (final (approve id now actor s) ≡ s)
        × (succeeded (deny id now actor remark s) ≡ false)
        × (final (deny id now actor remark s) ≡ s)
  unfolding cancel_own_request approve deny
  closed_request-unchanged id user now actor remark s r found over =
      let same = normalize_status-status_text r.status in
      (ground arith, ground arith, ground arith, ground arith, ground arith, ground arith)

  -- No operation on an existing request makes a second pending one.
  pub decision-HasOnePendingEach :
      (id user : Text) (now : ℕ) (actor remark : Option Text) (s : Store)
      → HasOnePendingEach s
      → HasOnePendingEach (final (cancel_own_request id user now actor s))
        × HasOnePendingEach (final (approve id now actor s))
        × HasOnePendingEach (final (deny id now actor remark s))
  unfolding cancel_own_request approve deny
  decision-HasOnePendingEach id user now actor remark s one = (
    λ x. elim (Option-cases (find (λ r. text_eq r.id id) s.requests)) [
      | inl missing ↦ ground (arith, one x)
      | inr (r, found) ↦
          let le =
            closed-le x id user now cancelled (some (codes "Cancelled by requester")) s refl in
          ground (arith, one x)
    ],
    λ x. elim (Option-cases (find (λ r. text_eq r.id id) s.requests)) [
      | inl missing ↦ ground (arith, one x)
      | inr (r, found) ↦
          let le = closed-le x id (nullish actor []) now approved (trimmed none) s refl in
          ground (arith, one x)
    ],
    λ x. elim (Option-cases (find (λ r. text_eq r.id id) s.requests)) [
      | inl missing ↦ ground (arith, one x)
      | inr (r, found) ↦
          let le = closed-le x id (nullish actor []) now denied (trimmed remark) s refl in
          ground (arith, one x)
    ],
  )
