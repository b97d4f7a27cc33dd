-- ===== src/Backup/Retention/Laws.antt =====
-- What the retirement of old backups keeps.
use proj_track_official.Prelude.{
  ℕ, ◌+◌, ◌≤◌, ◌≡◌, refl, Bool, false, ◌&&◌, not, Option, some, List, [], ◌∷◌, find, keep, length,
  length-take-le, All, All-take, keep-passes, is_some, arith, Bool-cases, inl, inr, if◌then◌else◌,
  ap, ◌∙◌,
}
use Prim.Native.Nat.{max}
use proj_track_official.Prelude.Text.{Text, text_eq, text_eq_iff, text_eq_sym}
use proj_track_official.Prelude.Table.{update_one}
use proj_track_official.Backup.Retention.{
  Run, is_completed, is_running, latest_successful, visible_runs, is_run, is_retained, is_expired,
  expired, Report, mark_deleted, retire, retire_all, cleanup_expired, newest_first, insert, before,
}

-- What makes a run one that may be retired.
pub record IsRetirable (runs : List Run) (count : ℕ) (r : Run) : Type 0 where
  pub not_deleted : is_some r.deleted_at ≡ false
  pub not_protected : r.is_protected ≡ false
  pub not_running : is_running r ≡ false
  pub not_latest : is_run (latest_successful runs) r ≡ false
  pub not_retained : (is_completed r && is_retained count runs r) ≡ false

abbrev pub IsVisible : Run → Type 0
IsVisible r = (is_some r.deleted_at ≡ false) × (r.is_protected ≡ false) × (is_running r ≡ false)

insert-All :
    (r : Run) (rs : List Run) → IsVisible r → All IsVisible rs → All IsVisible (insert r rs)
unfolding insert
insert-All r [] h k = (h, tt)
insert-All r (x ∷ rs) h (hx, k) = elim (Bool-cases (before r x)) [
  | inl e ↦ rw e (h, (hx, k))
  | inr e ↦ rw e (hx, insert-All r rs h k)
]

newest_first-All : (rs : List Run) → All IsVisible rs → All IsVisible (newest_first rs)
unfolding newest_first
newest_first-All [] h = tt
newest_first-All (r ∷ rs) (h, k) = insert-All r _ h (newest_first-All rs k)

visible_runs-All : (runs : List Run) → All IsVisible (visible_runs runs)
unfolding visible_runs
visible_runs-All runs = All-take IsVisible 500 _ (
    newest_first-All _ (
      keep-passes IsVisible
        (λ (r : Run). not (is_some r.deleted_at) && not r.is_protected && not (is_running r))
        (λ r e. (ground arith, ground arith, ground arith)) runs))

expired-All :
    (days count now : ℕ) (runs rows : List Run)
    → All IsVisible rows
    → All (IsRetirable runs count) (keep (is_expired days count now runs) rows)
unfolding is_expired
expired-All days count now runs [] h = tt
expired-All days count now runs (r ∷ rows) ((a, b, c), h) =
    let rest = expired-All days count now runs rows h in
    elim (Bool-cases (is_expired days count now runs r)) [
      | inr e ↦ rw e rest
      | inl e ↦ rw e (
        record {
          not_deleted = a;
          not_protected = b;
          not_running = c;
          not_latest = ground arith;
          not_retained = ground arith;
        },
        rest,
      )
    ]

-- Every run that is selected for retirement is visible, neither protected nor running, not the latest
-- successful one, and, if completed, not among those that the count retains.
pub expired-IsRetirable :
    (days count now : ℕ) (runs : List Run)
    → All (IsRetirable runs count) (expired days count now runs)
unfolding expired
expired-IsRetirable days count now runs =
    All-take (IsRetirable runs count) 50 _
      (expired-All days count now runs (visible_runs runs) (visible_runs-All runs))

find-update_one_other :
    (i j : Text) (at : ℕ) (runs : List Run)
    → text_eq i j ≡ false
    → find (λ x. text_eq x.id i) (update_one (λ x. text_eq x.id j) (mark_deleted at) runs)
      ≡ find (λ x. text_eq x.id i) runs
find-update_one_other i j at [] h = refl
find-update_one_other i j at (r ∷ runs) h =
    let rest = find-update_one_other i j at runs h in
    let key = text_eq_iff r.id j in
    let key' = text_eq_sym i j in
    elim (Bool-cases (text_eq r.id j)) [
      | inr e ↦ rw e (ap (λ z. if text_eq r.id i then some r else z) rest)
      | inl e ↦ let off : text_eq r.id i ≡ false = rw (key.0 e) (ground arith) in rw (e, off) refl
    ]

retire_all-keeps_latest :
    (refuses : Run → Bool) (at : ℕ) (l : Run) (rs runs : List Run) (report : Report)
    → find (λ x. text_eq x.id l.id) ((retire_all refuses at (some l) rs runs report).0)
      ≡ find (λ x. text_eq x.id l.id) runs
unfolding retire_all retire
retire_all-keeps_latest refuses at l [] runs report = refl
retire_all-keeps_latest refuses at l (r ∷ rs) runs report =
    retire_all-keeps_latest refuses at l rs _ _ ∙ step
  where
    step :
        find (λ x. text_eq x.id l.id) ((retire refuses at (some l) r runs report).0)
        ≡ find (λ x. text_eq x.id l.id) runs
    step = elim (Bool-cases (text_eq l.id r.id)) [
      | inl e ↦ rw e refl
      | inr e ↦ elim (Bool-cases (refuses r)) [
        | inl f ↦ rw (e, f) refl
        | inr f ↦ rw (e, f) (find-update_one_other l.id r.id at runs e)
      ]
    ]

-- The row of the latest successful backup is read after a cleanup as before it, whatever the options,
-- the clock and the storage do.
pub cleanup_expired-keeps_latest :
    (refuses : Run → Bool) (days count now at : ℕ) (runs : List Run) (l : Run)
    → latest_successful runs ≡ some l
    → find (λ x. text_eq x.id l.id) ((cleanup_expired refuses days count now at runs).0)
      ≡ find (λ x. text_eq x.id l.id) runs
unfolding cleanup_expired
cleanup_expired-keeps_latest refuses days count now at runs l e = rw e (
    retire_all-keeps_latest refuses at l (expired (max 1 days) (max 1 count) now runs) runs
      (record { deleted = 0; failed = 0 }))

retire-counts :
    (refuses : Run → Bool) (at : ℕ) (latest : Option Run) (r : Run) (runs : List Run)
    (report : Report)
    → is_run latest r ≡ false
    → ((retire refuses at latest r runs report).1).deleted
        + ((retire refuses at latest r runs report).1).failed
      ≡ report.deleted + report.failed + 1
unfolding retire
retire-counts refuses at latest r runs report h = elim (Bool-cases (refuses r)) [
  | inl e ↦ rw (h, e) (omega arith)
  | inr e ↦ rw (h, e) (omega arith)
]

retire_all-counts :
    (refuses : Run → Bool) (at : ℕ) (latest : Option Run) (rs runs : List Run) (report : Report)
    → All (λ r. is_run latest r ≡ false) rs
    → ((retire_all refuses at latest rs runs report).1).deleted
        + ((retire_all refuses at latest rs runs report).1).failed
      ≡ report.deleted + report.failed + length rs
unfolding retire_all retire
retire_all-counts refuses at latest [] runs report h = omega arith
retire_all-counts refuses at latest (r ∷ rs) runs report (h, k) =
    let (runs', report') = retire refuses at latest r runs report in
    let rest = retire_all-counts refuses at latest rs runs' report' k in
    let one = retire-counts refuses at latest r runs report h in omega (arith, rest, one)

retirable-not_latest :
    (runs : List Run) (count : ℕ) (rs : List Run)
    → All (IsRetirable runs count) rs
    → All (λ r. is_run (latest_successful runs) r ≡ false) rs
retirable-not_latest runs count [] h = tt
retirable-not_latest runs count (r ∷ rs) (h, k) =
    (h.not_latest, retirable-not_latest runs count rs k)

-- Every run that is selected is counted in the report, as deleted or as failed; they are 50 at most.
pub cleanup_expired-counts :
    (refuses : Run → Bool) (days count now at : ℕ) (runs : List Run)
    → (((cleanup_expired refuses days count now at runs).1).deleted
          + ((cleanup_expired refuses days count now at runs).1).failed
        ≡ length (expired (max 1 days) (max 1 count) now runs))
      × (length (expired (max 1 days) (max 1 count) now runs) ≤ 50)
unfolding cleanup_expired expired
cleanup_expired-counts refuses days count now at runs =
    let total =
      retire_all-counts refuses at (latest_successful runs)
        (expired (max 1 days) (max 1 count) now runs) runs (record { deleted = 0; failed = 0 })
        (retirable-not_latest runs (max 1 count) _
          (expired-IsRetirable (max 1 days) (max 1 count) now runs)) in
    (omega (arith, total), length-take-le 50 _)
