-- ===== src/Mail/Worker/Life.antt =====
-- The life of one job, and how often the provider is called for it.
use proj_track_official.Prelude.{
  ℕ, suc, ◌+◌, ◌*◌, ◌≤◌, ◌<◌, ◌≡◌, ◌⊎◌, Bool, true, if◌then◌else◌, arith, inl, inr, List, some,
  find, keep, take, ltb, All, All-take, All-find, keep-passes,
}
use proj_track_official.Prelude.Text.{Text, text_eq}
use proj_track_official.Mail.Job.{Job, JobType, Provider}
use proj_track_official.Mail.Worker.{
  selected, sort_due, is_due, is_claimable, claimed, Ending, was_cancelled, unrendered, over_limit,
  incomplete, delivered, undelivered, settle, is_send, is_companion, pause_companion, recovered,
}

abbrev pub calls : Bool → ℕ
calls b = if b then 1 else 0

-- `Life j n`: the row can be `j` after `n` calls of the provider for it, by what the worker does to
-- it: read it among the rows that a pass selects from the table `jobs`, claim it, and process it to one of its endings; crash while it holds it, before or after the call; pause it
-- with the batch that reached a limit. A retry or a resumption by hand starts a new life with no attempt.
pub data Life : Job → ℕ → Type 0 where
  enqueued : (j : Job) → j.attempts ≡ 0 → Life j 0
  processed :
      {j : Job} {n : ℕ}
      → Life j n
      → (p : Provider) (worker_id : Text) (ty : JobType) (limit now at later : ℕ) (jobs : List Job)
        (row : Job) (e : Ending)
      → find (λ x. text_eq x.id row.id) (selected ty now limit jobs) ≡ some row
      → is_claimable ty now row j ≡ true
      → Life
          (settle (claimed p worker_id at row j) later e (claimed p worker_id at row j))
          (n + calls (is_send e))
  crashed :
      {j : Job} {n : ℕ}
      → Life j n
      → (p : Provider) (worker_id : Text) (ty : JobType) (limit now at : ℕ) (jobs : List Job)
        (row : Job) (called : Bool)
      → find (λ x. text_eq x.id row.id) (selected ty now limit jobs) ≡ some row
      → is_claimable ty now row j ≡ true
      → Life (recovered (claimed p worker_id at row j)) (n + calls called)
  paused_with :
      {j : Job} {n : ℕ}
      → Life j n
      → (job : Job) → is_companion job j ≡ true
      → Life (pause_companion j) n

-- A row that a pass selects has an attempt left.
pub selected_left :
    (ty : JobType) (now limit : ℕ) (jobs : List Job)
    → All (λ row. row.attempts < row.max_attempts) (selected ty now limit jobs)
unfolding selected
selected_left ty now limit jobs = All-take _ limit _ (
    keep-passes (λ x. x.attempts < x.max_attempts) (λ (j : Job). ltb j.attempts j.max_attempts)
      (λ j e. ground arith) (take (limit * 4) (sort_due (keep (is_due ty now) jobs))))

chosen-left :
    (ty : JobType) (now limit : ℕ) (jobs : List Job) (row : Job)
    → find (λ x. text_eq x.id row.id) (selected ty now limit jobs) ≡ some row
    → row.attempts < row.max_attempts
chosen-left ty now limit jobs row chosen =
    All-find (λ row. row.attempts < row.max_attempts) (λ (x : Job). text_eq x.id row.id)
      (selected ty now limit jobs) (selected_left ty now limit jobs) chosen

-- The budget of a job and the calls made for it.
abbrev pub Covered : Job → ℕ → Type 0
Covered j n = (n ≤ j.attempts) × ((j.attempts ≡ 0) ⊎ (j.attempts ≤ j.max_attempts))

settle_covered :
    (job : Job) (later n : ℕ) (e : Ending)
    → suc n ≤ job.attempts
    → job.attempts ≤ job.max_attempts
    → (n + calls (is_send e) ≤ (settle job later e job).attempts)
      × ((settle job later e job).attempts ≤ (settle job later e job).max_attempts)
unfolding settle
settle_covered job later n was_cancelled h k = (omega arith, k)
settle_covered job later n unrendered h k = (omega arith, k)
settle_covered job later n over_limit h k = (omega arith, omega arith)
settle_covered job later n incomplete h k = (ground arith, ground arith)
settle_covered job later n (delivered p m) h k = (omega arith, k)
settle_covered job later n (undelivered c) h k = (ground arith, ground arith)

recovered_covered :
    (job : Job) (n : ℕ) (called : Bool)
    → suc n ≤ job.attempts
    → job.attempts ≤ job.max_attempts
    → (n + calls called ≤ (recovered job).attempts)
      × ((recovered job).attempts ≤ (recovered job).max_attempts)
recovered_covered job n called h k = (ground arith, ground arith)

pub Life-Covered : {j : Job} {n : ℕ} → Life j n → Covered j n
Life-Covered (enqueued j e) = (omega arith, inl e)
Life-Covered (processed {j} {n} life p w ty limit now at later jobs row e chosen ok) =
    let left = chosen-left ty now limit jobs row chosen in
    let (spent, budget) = Life-Covered life in
    let (a, b) = settle_covered (claimed p w at row j) later n e (ground arith) (ground arith) in
    (a, inr b)
Life-Covered (crashed {j} {n} life p w ty limit now at jobs row called chosen ok) =
    let left = chosen-left ty now limit jobs row chosen in
    let (spent, budget) = Life-Covered life in
    let (a, b) = recovered_covered (claimed p w at row j) n called (ground arith) (ground arith) in
    (a, inr b)
Life-Covered (paused_with life job ok) = Life-Covered life

-- However often a job that starts with no attempt is selected by a pass, claimed and processed, recovered
-- from a worker that crashed while it held it, or paused with its batch, the provider is called for it at most
-- `maxAttempts` times, the calls of the crashed workers included.
pub calls-le-max_attempts : {j : Job} {n : ℕ} → Life j n → n ≤ j.max_attempts
calls-le-max_attempts {j} {n} life =
    let (spent, budget) = Life-Covered life in
    elim budget [ inl e ↦ omega arith | inr b ↦ omega arith ]
