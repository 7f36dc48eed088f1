-- ===== src/Controller/Invariant/Steps.antt =====
-- The writes to jobs and runs, one by one: each keeps the two tables in agreement.
use mathlib.Core.Option
use dvk_claude.Common.{
  String, ◌≡◌, ◌≢◌, none, some, List, ◌==◌, eq_iff, arith, Option-cases, inl, inr, if◌then◌else◌,
}
use dvk_claude.Result.{ok}
use dvk_claude.Table.{find, update, insert}
use dvk_claude.Table.Laws.{key-find, find-update, find-insert}
use dvk_claude.Table.Keys.{Unique-update, Unique-insert, insert-eq-ok}
use dvk_claude.Controller.Schema.{State, queued, running, Job, Run, job_key, run_key}
use dvk_claude.Controller.Leases.{release_job}
use dvk_claude.Controller.Invariant.{Consistent, RunsJob, HasActiveRun, WithinAttempts}

-- The run is no longer running, and is otherwise the run that it was.
pub record IsClosed (before after : Run) : Type 0 where
  pub same_id : after.run_id ≡ before.run_id
  pub same_job : after.job_id ≡ before.job_id
  pub same_attempt : after.attempt ≡ before.attempt
  pub not_running : after.state ≢ running

-- A new job waits, with no attempt made.
module _ (job : Job) (jobs new : List Job) (runs : List Run) (waits : job.state ≡ queued)
    (idle : job.active_run_id ≡ none) (e : insert job_key job jobs ≡ ok new)
    (c : Consistent jobs runs) where
  inserted :
      (id : String)
      → find job_key id new ≡ (if job.job_id == id then some job else find job_key id jobs)
  inserted id = find-insert job_key id job jobs new e

  fresh : find job_key job.job_id jobs ≡ none
  fresh = (insert-eq-ok job_key job jobs new e).0

  pub insert_job-Consistent : Consistent new runs
  insert_job-Consistent = record {
    job_ids = Unique-insert job_key job jobs new e c.job_ids;
    run_ids = c.run_ids;
    run_active = λ id r h s.
        ground (arith, inserted r.job_id, fresh, eq_iff job.job_id r.job_id, c.run_active id r h s);
    job_active = λ id j h. ground (arith, inserted id, waits, idle, c.job_active id j);
    attempts = λ id r h.
        ground (arith, inserted r.job_id, fresh, eq_iff job.job_id r.job_id, c.attempts id r h);
  }

-- A run ends, as its job's active attempt or as a forgotten one: `mark` closes the run, and `free`
-- does to its job what `release_job` does.
module _ (target : State) (run_id job_id : String) (jobs : List Job) (runs : List Run) (r0 : Run)
    (mark : Run → Run) (free : Job → Job) (closed : (r : Run) → IsClosed r (mark r))
    (keeps_id : (j : Job) → (free j).job_id ≡ j.job_id)
    (frees : (j : Job) → find job_key job_id jobs ≡ some j → free j ≡ release_job target run_id j)
    (open_target : target ≢ running) (found : find run_key run_id runs ≡ some r0)
    (of_job : r0.job_id ≡ job_id) (c : Consistent jobs runs) where
  abbrev ended_runs : List Run
  ended_runs = update run_key run_id mark runs

  abbrev freed_jobs : List Job
  freed_jobs = update job_key job_id free jobs

  run_at :
      (id : String)
      → find run_key id ended_runs
        ≡ (if run_id == id then Option.map mark (find run_key id runs) else find run_key id runs)
  run_at id = find-update run_key id run_id mark runs (λ r. (closed r).same_id)

  job_at :
      (id : String)
      → find job_key id freed_jobs ≡ (
          if job_id == id
          then Option.map (release_job target run_id) (find job_key id jobs)
          else find job_key id jobs)
  job_at id = elim (Option-cases (find job_key id jobs)) [
    | inl e ↦ ground (arith, e, find-update job_key id job_id free jobs keeps_id)
    | inr (j, e) ↦
        ground
          (arith, e, find-update job_key id job_id free jobs keeps_id, frees j, eq_iff job_id id)
  ]

  -- A running run was running before, and is not the one that ended.
  was_running :
      (id : String) (r r1 : Run)
      → find run_key id runs ≡ some r1
      → find run_key id ended_runs ≡ some r
      → r.state ≡ running
      → (find run_key id runs ≡ some r) × (r.run_id ≢ run_id)
  was_running id r r1 e h s =
      ground (arith, run_at id, closed r1, key-find run_key id runs r1, eq_iff run_id id)

  end-run_active :
      (id : String) (r r1 : Run)
      → find run_key id runs ≡ some r1
      → find run_key id ended_runs ≡ some r
      → r.state ≡ running
      → RunsJob r (find job_key r.job_id freed_jobs)
  unfolding release_job
  end-run_active id r r1 e h s =
      let (h', other) = was_running id r r1 e h s in
      ground (arith, job_at r.job_id, c.run_active id r h' s, other, eq_iff r.run_id run_id)

  end-job_active :
      (id : String) (j j0 : Job)
      → find job_key id jobs ≡ some j0
      → find job_key id freed_jobs ≡ some j
      → HasActiveRun j ended_runs j.active_run_id
  unfolding release_job
  end-job_active id j j0 e h =
      let serves = c.job_active id j0 e in
      elim (Option-cases j0.active_run_id) [
        | inl a ↦ ground (arith, job_at id, serves)
        | inr (x, a) ↦ ground (
          arith,
          job_at id,
          serves,
          run_at x,
          eq_iff x run_id,
          eq_iff run_id x,
          eq_iff job_id id,
          key-find job_key id jobs j0,
        )
      ]

  end-attempts :
      (id : String) (r r1 : Run)
      → find run_key id runs ≡ some r1
      → find run_key id ended_runs ≡ some r
      → WithinAttempts r (find job_key r.job_id freed_jobs)
  unfolding release_job
  end-attempts id r r1 e h =
      ground (arith, run_at id, job_at r.job_id, closed r1, c.attempts id r1 e)

  pub end-Consistent : Consistent freed_jobs ended_runs
  end-Consistent = record {
    job_ids = Unique-update job_key job_id free jobs keeps_id c.job_ids;
    run_ids = Unique-update run_key run_id mark runs (λ r. (closed r).same_id) c.run_ids;
    run_active = λ id r h s. elim (Option-cases (find run_key id runs)) [
      | inl e ↦ absurd (ground (arith, run_at id))
      | inr (r1, e) ↦ end-run_active id r r1 e h s
    ];
    job_active = λ id j h. elim (Option-cases (find job_key id jobs)) [
      | inl e ↦ absurd (ground (arith, job_at id))
      | inr (j0, e) ↦ end-job_active id j j0 e h
    ];
    attempts = λ id r h. elim (Option-cases (find run_key id runs)) [
      | inl e ↦ absurd (ground (arith, run_at id))
      | inr (r1, e) ↦ end-attempts id r r1 e h
    ];
  }
