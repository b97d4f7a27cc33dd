-- ===== src/Mail/Worker/Race.antt =====
-- Two workers that read one row as due.
use proj_track_official.Prelude.{ℕ, ◌≤◌, ◌≡◌, refl, true, false, List, arith, count}
use proj_track_official.Prelude.Text.{Text, text_eq}
use proj_track_official.Prelude.Table.{update_many, update_many-idle, count-after_update}
use proj_track_official.Mail.Job.{Job, JobType, Provider}
use proj_track_official.Mail.Worker.{
  is_claimable, claimed, claim, Ending, was_cancelled, unrendered, over_limit, incomplete,
  delivered, undelivered, settle,
}

-- A row as a worker has left it, whatever the ending, is never the row that another worker read
-- before: it waits no longer, or an attempt has been used.
pub settle-refuses_stale_claim :
    (p : Provider) (worker_id : Text) (ty : JobType) (now now' at later : ℕ) (row j : Job)
    (e : Ending)
    → is_claimable ty now row j ≡ true
    → is_claimable ty now' row
        (settle (claimed p worker_id at row j) later e (claimed p worker_id at row j))
      ≡ false
unfolding settle
settle-refuses_stale_claim p w ty now now' at later row j was_cancelled h = ground arith
settle-refuses_stale_claim p w ty now now' at later row j unrendered h = ground arith
settle-refuses_stale_claim p w ty now now' at later row j over_limit h = ground arith
settle-refuses_stale_claim p w ty now now' at later row j incomplete h = ground arith
settle-refuses_stale_claim p w ty now now' at later row j (delivered q m) h = ground arith
settle-refuses_stale_claim p w ty now now' at later row j (undelivered c) h = ground arith

-- The primary key: no two rows have one id.
abbrev pub HasUniqueIds : List Job → Type 0
HasUniqueIds jobs = (x : Text) → count (λ j. text_eq j.id x) jobs ≤ 1

-- Two workers have read one row as due. When the claim of the first has gone through, the second
-- claims nothing, whatever the clocks of the two, and changes no row.
pub claim_race :
    (p p' : Provider) (w w' : Text) (ty : JobType) (now now' at at' : ℕ) (row : Job)
    (jobs jobs' : List Job)
    → HasUniqueIds jobs
    → claim p w ty now at row jobs ≡ (jobs', true)
    → claim p' w' ty now' at' row jobs' ≡ (jobs', false)
unfolding claim
claim_race p p' w w' ty now now' at at' row jobs jobs' unique h =
    let after = update_many (is_claimable ty now row) (claimed p w at row) jobs in
    let moved : jobs' ≡ after = ground arith in
    let one : 1 ≤ count (is_claimable ty now row) jobs = ground arith in
    let bound =
      count-after_update (is_claimable ty now' row) (is_claimable ty now row)
        (λ y. text_eq y.id row.id) (claimed p w at row) (λ y e. ground arith) (λ y e. ground arith)
        (λ y e. ground arith) jobs in
    let none_left : count (is_claimable ty now' row) jobs' ≡ 0 =
      rw moved (omega (arith, bound, unique row.id)) in
    rw
      (
        none_left,
        update_many-idle (is_claimable ty now' row) (claimed p' w' at' row) jobs' none_left,
      )
      refl
