-- ===== src/Controller/Invariant.antt =====
-- How jobs and runs of the controller agree, over any pair of tables.
pub mod Steps
pub mod Starts
pub mod Enqueues
pub mod Claims
pub mod Expiry
pub mod Endings
pub mod Resolutions
pub mod Reachable
use dvk_claude.Common.{ℕ, ◌≤◌, String, ◌≡◌, ◌≢◌, Option, none, some, List}
use dvk_claude.Result.{Result, Ensures}
use dvk_claude.Table.{find}
use dvk_claude.Table.Keys.{Unique}
use dvk_claude.Controller.Schema.{State, running, Job, Run, Db, job_key, run_key}

-- The job of a running run is running, and this run is its active attempt.
abbrev pub RunsJob : Run → Option Job → Type 0
RunsJob r none = ⊥
RunsJob r (some j) =
    (j.state ≡ running) × (j.active_run_id ≡ some r.run_id) × (j.attempt ≡ r.attempt)

-- The active run of a job is running and is a run of this job.
abbrev pub ServesJob : Job → Option Run → Type 0
ServesJob j none = ⊥
ServesJob j (some r) = (r.state ≡ running) × (r.job_id ≡ j.job_id)

abbrev pub HasActiveRun : Job → List Run → Option String → Type 0
HasActiveRun j runs none = j.state ≢ running
HasActiveRun j runs (some id) = (j.state ≡ running) × ServesJob j (find run_key id runs)

-- No run is ahead of its job's count of attempts.
abbrev pub WithinAttempts : Run → Option Job → Type 0
WithinAttempts r none = ⊥
WithinAttempts r (some j) = r.attempt ≤ j.attempt

pub record Consistent (jobs : List Job) (runs : List Run) : Type 0 where
  pub job_ids : Unique job_key jobs
  pub run_ids : Unique run_key runs
  pub run_active :
      (id : String) (r : Run)
      → find run_key id runs ≡ some r
      → r.state ≡ running
      → RunsJob r (find job_key r.job_id jobs)
  pub job_active :
      (id : String) (j : Job) → find job_key id jobs ≡ some j → HasActiveRun j runs j.active_run_id
  pub attempts :
      (id : String) (r : Run)
      → find run_key id runs ≡ some r
      → WithinAttempts r (find job_key r.job_id jobs)

abbrev pub IsConsistent : Db → Type 0
IsConsistent db = Consistent db.jobs db.runs

-- The new database is in agreement, if the operation returns one.
abbrev pub Keeps {ℓ} : {A : Type ℓ} → Result (A × Db) → Type ℓ
Keeps = Ensures (λ r. IsConsistent r.1)

abbrev pub KeepsDb : Result Db → Type 0
KeepsDb = Ensures IsConsistent
