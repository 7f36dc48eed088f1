-- ===== src/Controller/Invariant/Starts.antt =====
-- The writes that start, extend or reopen an attempt keep jobs and runs in agreement.
use mathlib.Core.Option
use dvk_claude.Common.{
  ℕ, ◌+◌, String, ◌≡◌, ◌≢◌, refl, none, some, List, ◌==◌, eq_iff, eq_refl, arith, Bool-cases,
  Option-cases, inl, inr, if◌then◌else◌,
}
use dvk_claude.Result.{ok}
use dvk_claude.Table.{find, update, insert}
use dvk_claude.Table.Laws.{find-update, find-insert}
use dvk_claude.Table.Keys.{Unique-update, Unique-insert, insert-eq-ok}
use dvk_claude.Controller.Schema.{State, queued, running, Job, Run, Env, job_key, run_key}
use dvk_claude.Controller.Claim.{start_job, new_run, insert_run}
use dvk_claude.Controller.Leases.{renew_lease}
use dvk_claude.Controller.Gates.{resolve_job}
use dvk_claude.Controller.Invariant.{Consistent, RunsJob, HasActiveRun, WithinAttempts}

module _ (now : ℕ) (run_id : String) (jobs : List Job) (runs : List Run)
    (c : Consistent jobs runs) where
  abbrev renewed_runs : List Run
  renewed_runs = update run_key run_id (renew_lease now) runs

  renewed_at :
      (id : String)
      → find run_key id renewed_runs ≡ (
          if run_id == id
          then Option.map (renew_lease now) (find run_key id runs)
          else find run_key id runs)
  renewed_at id = find-update run_key id run_id (renew_lease now) runs (λ r. refl)

  renew-job_active :
      (id : String) (j : Job)
      → find job_key id jobs ≡ some j
      → HasActiveRun j renewed_runs j.active_run_id
  renew-job_active id j h = elim (Option-cases j.active_run_id) [
    | inl a ↦ ground (arith, c.job_active id j h)
    | inr (x, a) ↦ ground (arith, c.job_active id j h, renewed_at x)
  ]

  pub renew-Consistent : Consistent jobs renewed_runs
  renew-Consistent = record {
    job_ids = c.job_ids;
    run_ids = Unique-update run_key run_id (renew_lease now) runs (λ r. refl) c.run_ids;
    run_active = λ id r h s. elim (Option-cases (find run_key id runs)) [
      | inl e ↦ absurd (ground (arith, renewed_at id))
      | inr (r1, e) ↦ ground (arith, renewed_at id, c.run_active id r1 e)
    ];
    job_active = renew-job_active;
    attempts = λ id r h. elim (Option-cases (find run_key id runs)) [
      | inl e ↦ absurd (ground (arith, renewed_at id))
      | inr (r1, e) ↦ ground (arith, renewed_at id, c.attempts id r1 e)
    ];
  }

module _ (target : State) (job_id : String) (jobs : List Job) (runs : List Run)
    (open_target : target ≢ running) (c : Consistent jobs runs) where
  abbrev resolved_jobs : List Job
  resolved_jobs = update job_key job_id (resolve_job target) jobs

  resolve_job-id : (j : Job) → (resolve_job target j).job_id ≡ j.job_id
  unfolding resolve_job
  resolve_job-id j = ground arith

  resolved_at :
      (id : String)
      → find job_key id resolved_jobs ≡ (
          if job_id == id
          then Option.map (resolve_job target) (find job_key id jobs)
          else find job_key id jobs)
  resolved_at id = find-update job_key id job_id (resolve_job target) jobs resolve_job-id

  resolve-job_active :
      (id : String) (j j0 : Job)
      → find job_key id jobs ≡ some j0
      → find job_key id resolved_jobs ≡ some j
      → HasActiveRun j runs j.active_run_id
  unfolding resolve_job
  resolve-job_active id j j0 e h = elim (Option-cases j0.active_run_id) [
    | inl a ↦ ground (arith, resolved_at id, c.job_active id j0 e)
    | inr (x, a) ↦ ground (arith, resolved_at id, c.job_active id j0 e)
  ]

  pub resolve-Consistent : Consistent resolved_jobs runs
  unfolding resolve_job
  resolve-Consistent = record {
    job_ids = Unique-update job_key job_id (resolve_job target) jobs resolve_job-id c.job_ids;
    run_ids = c.run_ids;
    run_active = λ id r h s. ground (arith, resolved_at r.job_id, c.run_active id r h s);
    job_active = λ id j h. elim (Option-cases (find job_key id jobs)) [
      | inl e ↦ absurd (ground (arith, resolved_at id))
      | inr (j0, e) ↦ resolve-job_active id j j0 e h
    ];
    attempts = λ id r h. ground (arith, resolved_at r.job_id, c.attempts id r h);
  }

pub insert_run-insert :
    (run : Run) (runs new : List Run)
    → insert_run run runs ≡ ok new
    → insert run_key run runs ≡ ok new
unfolding insert_run
insert_run-insert run runs new h = ground arith

module _ (env : Env) (worker_id : String) (job : Job) (jobs : List Job) (runs new : List Run)
    (found : find job_key job.job_id jobs ≡ some job) (waits : job.state ≡ queued)
    (e : insert_run (new_run env worker_id job) runs ≡ ok new) (c : Consistent jobs runs) where
  abbrev run : Run
  run = new_run env worker_id job

  abbrev start : Job → Job
  start = start_job env.run_id (job.attempt + 1)

  abbrev started_jobs : List Job
  started_jobs = update job_key job.job_id start jobs

  start_job-id : (j : Job) → (start j).job_id ≡ j.job_id
  unfolding start_job
  start_job-id j = ground arith

  started_at :
      (id : String)
      → find job_key id started_jobs ≡ (
          if job.job_id == id
          then Option.map start (find job_key id jobs)
          else find job_key id jobs)
  started_at id = find-update job_key id job.job_id start jobs start_job-id

  run_inserted :
      (id : String)
      → find run_key id new ≡ (if env.run_id == id then some run else find run_key id runs)
  run_inserted id = find-insert run_key id run runs new (insert_run-insert run runs new e)

  fresh : find run_key env.run_id runs ≡ none
  fresh = (insert-eq-ok run_key run runs new (insert_run-insert run runs new e)).0

  start-run_active :
      (id : String) (r : Run)
      → find run_key id new ≡ some r
      → r.state ≡ running
      → RunsJob r (find job_key r.job_id started_jobs)
  unfolding start_job
  start-run_active id r h s = elim (Bool-cases (env.run_id == id)) [
    | inl same ↦
        ground (arith, run_inserted id, started_at r.job_id, found, waits, eq_refl job.job_id)
    | inr other ↦
        let old : find run_key id runs ≡ some r = ground (arith, run_inserted id) in
        ground (
          arith,
          started_at r.job_id,
          c.run_active id r old s,
          found,
          waits,
          eq_iff job.job_id r.job_id,
        )
  ]

  start-job_active :
      (id : String) (j j0 : Job)
      → find job_key id jobs ≡ some j0
      → find job_key id started_jobs ≡ some j
      → HasActiveRun j new j.active_run_id
  unfolding start_job
  start-job_active id j j0 e0 h =
      let serves = c.job_active id j0 e0 in
      elim (Bool-cases (job.job_id == id)) [
        | inl same ↦ ground (
          arith,
          started_at id,
          eq_iff job.job_id id,
          found,
          waits,
          run_inserted env.run_id,
          eq_refl env.run_id,
        )
        | inr other ↦ elim (Option-cases j0.active_run_id) [
          | inl a ↦ ground (arith, started_at id, serves)
          | inr (x, a) ↦
              ground (arith, started_at id, serves, run_inserted x, fresh, eq_iff env.run_id x)
        ]
      ]

  start-attempts :
      (id : String) (r : Run)
      → find run_key id new ≡ some r
      → WithinAttempts r (find job_key r.job_id started_jobs)
  unfolding start_job
  start-attempts id r h = elim (Bool-cases (env.run_id == id)) [
    | inl same ↦
        ground (arith, run_inserted id, started_at r.job_id, found, waits, eq_refl job.job_id)
    | inr other ↦
        let old : find run_key id runs ≡ some r = ground (arith, run_inserted id) in
        ground (arith, started_at r.job_id, c.attempts id r old, found, eq_iff job.job_id r.job_id)
  ]

  pub start-Consistent : Consistent started_jobs new
  start-Consistent = record {
    job_ids = Unique-update job_key job.job_id start jobs start_job-id c.job_ids;
    run_ids = Unique-insert run_key run runs new (insert_run-insert run runs new e) c.run_ids;
    run_active = start-run_active;
    job_active = λ id j h. elim (Option-cases (find job_key id jobs)) [
      | inl e0 ↦ absurd (ground (arith, started_at id))
      | inr (j0, e0) ↦ start-job_active id j j0 e0 h
    ];
    attempts = start-attempts;
  }
