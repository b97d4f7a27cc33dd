-- ===== src/School/Spending.antt =====
-- An upload is spent once.
use proj_track_official.Prelude.{
  ℕ, ◌≤◌, ◌≡◌, true, false, List, [], ◌∷◌, count, length, ◌==◌, arith, Bool-cases, inl, inr,
}
use proj_track_official.Prelude.Text.{Text}
use proj_track_official.Prelude.Table.{update_many, count-update_many_zero}
use proj_track_official.Prelude.Outcome.{final, succeeded}
use proj_track_official.School.Store.{Upload, Store}
use proj_track_official.School.Uploads.{
  distinct, non_empty, is_consumable, spent, consume_if_any, consume_pending_uploads,
}
use proj_track_official.School.Handin.{is_nil}

module _ (now later : ℕ) (user submission : Text) (le : now ≤ later) where
  -- Nothing that the ids name is left to consume.
  count-spent :
      (ids : List Text) (uploads : List Upload)
      → count
          (is_consumable later ids user)
          (update_many (is_consumable now ids user) (spent now submission) uploads)
        ≡ 0
  count-spent ids uploads =
      count-update_many_zero (is_consumable later ids user) (is_consumable now ids user)
        (spent now submission) (λ u h. ground arith) (λ u h. ground arith) uploads

  consume_if_any-twice :
      (ids : List Text) (other : Text) (s : Store)
      → is_nil ids ≡ false
      → succeeded (consume_if_any now ids user submission s) ≡ true
      → succeeded
          (consume_if_any later ids user other (final (consume_if_any now ids user submission s)))
        ≡ false
  unfolding consume_if_any
  consume_if_any-twice [] other s named ok = absurd (ground arith)
  consume_if_any-twice (id ∷ ids) other s named ok =
      let zero_left = count-spent (id ∷ ids) s.uploads in
      elim (Bool-cases (count (is_consumable now (id ∷ ids) user) s.uploads == length (id ∷ ids))) [
        | inl all ↦ ground arith
        | inr short ↦ absurd (ground arith)
      ]

-- Once the uploads of a submission are consumed, no later submission of the user can consume them again:
-- the second attempt throws.
pub consume_pending_uploads-twice :
    (now later : ℕ) (ids : List Text) (user submission other : Text) (s : Store)
    → now ≤ later
    → is_nil (distinct (non_empty ids)) ≡ false
    → succeeded (consume_pending_uploads now ids user submission s) ≡ true
    → succeeded (
        consume_pending_uploads later ids user other
          (final (consume_pending_uploads now ids user submission s)))
      ≡ false
unfolding consume_pending_uploads
consume_pending_uploads-twice now later ids user submission other s le named ok =
    consume_if_any-twice now later user submission le (distinct (non_empty ids)) other s named ok
