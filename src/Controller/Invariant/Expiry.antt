-- ===== src/Controller/Invariant/Expiry.antt =====
-- `heartbeat_run` and `reconcile_expired_leases` keep jobs and runs in agreement.
use dvk_claude.Common.{
  ℕ, String, ◌≡◌, ◌≢◌, refl, Option, none, some, List, [], ◌∷◌, arith, keep, Option-cases, inl, inr,
}
use dvk_claude.Common.All.{All, All-mono, All-keep}
use dvk_claude.Result.{Ensures, Ensures-ok, Ensures-err, Ensures-if, Ensures-bind}
use dvk_claude.Table.{find}
use dvk_claude.Table.Laws.{find-update}
use dvk_claude.Table.Keys.{All-find_self}
use dvk_claude.Controller.Schema.{State, running, Job, Run, Db, Env, run_key}
use dvk_claude.Controller.Invariant.{IsConsistent, Keeps, KeepsDb}
use dvk_claude.Controller.Leases.{
  heartbeat_run, owns_lease, is_expired, mark_stale, release_job, expiry_target, expire_run,
  expire_all, reconcile_expired_leases,
}
use dvk_claude.Controller.Invariant.Starts.{renew-Consistent}
use dvk_claude.Controller.Invariant.Steps.{IsClosed, end-Consistent}

pub heartbeat_run-Keeps :
    (env : Env) (run_id lease_id lease_token : String) (db : Db)
    → IsConsistent db
    → KeepsDb (heartbeat_run env run_id lease_id lease_token db)
unfolding heartbeat_run
heartbeat_run-Keeps env run_id lease_id lease_token db c =
    elim (Option-cases (find run_key run_id db.runs)) [
      | inl e ↦ rw (e, heartbeat_run) (Ensures-err _)
      | inr (r, e) ↦
          rw (e, heartbeat_run)
            (Ensures-if (owns_lease lease_id lease_token env.now r) _ _
              (λ _. Ensures-ok _ (renew-Consistent env.now run_id db.jobs db.runs c))
              (λ _. Ensures-err _))
    ]

-- The run is in the table, as a run of the same job.
abbrev pub OfJob : Run → Option Run → Type 0
OfJob run none = ⊥
OfJob run (some r) = r.job_id ≡ run.job_id

abbrev pub IsKnown : Db → Run → Type 0
IsKnown db run = OfJob run (find run_key run.run_id db.runs)

mark_stale-IsClosed : (r : Run) → IsClosed r (mark_stale r)
mark_stale-IsClosed r = record {
  same_id = refl;
  same_job = refl;
  same_attempt = refl;
  not_running = λ e. cc;
}

release_job-id : (s : State) (id : String) (j : Job) → (release_job s id j).job_id ≡ j.job_id
unfolding release_job
release_job-id s id j = ground arith

expiry_target-closed :
    (job_id : String) (jobs : List Job) → Ensures (λ s. s ≢ running) (expiry_target job_id jobs)
unfolding expiry_target
expiry_target-closed job_id jobs = record { holds = λ s h. ground arith }

expire_run-Keeps :
    (now : ℕ) (run : Run) (db : Db)
    → IsKnown db run
    → IsConsistent db
    → KeepsDb (expire_run now run db)
unfolding expire_run
expire_run-Keeps now run db known c = elim (Option-cases (find run_key run.run_id db.runs)) [
  | inl e ↦ absurd (ground arith)
  | inr (r0, e) ↦ Ensures-bind _ _ λ target t. Ensures-ok _ (
      end-Consistent target run.run_id run.job_id db.jobs db.runs r0 mark_stale
        (release_job target run.run_id) mark_stale-IsClosed (release_job-id target run.run_id)
        (λ j _. refl) ((expiry_target-closed run.job_id db.jobs).holds target t) e (ground arith) c)
]

-- Expiring one run leaves every other run in the table.
expire_run-IsKnown :
    (now : ℕ) (run other : Run) (db : Db)
    → IsKnown db other
    → Ensures (λ new. IsKnown new other) (expire_run now run db)
unfolding expire_run
expire_run-IsKnown now run other db known = Ensures-bind _ _ λ target _.
    Ensures-ok _
      (ground (arith, find-update run_key other.run_id run.run_id mark_stale db.runs (λ r. refl)))

expire_all-Keeps :
    (now : ℕ) (runs : List Run) (db : Db)
    → All (IsKnown db) runs
    → IsConsistent db
    → KeepsDb (expire_all now runs db)
unfolding expire_all
expire_all-Keeps now [] db known c = Ensures-ok _ c
expire_all-Keeps now (r ∷ rs) db known c = Ensures-bind _ _ λ new e.
    expire_all-Keeps now rs new
      (All-mono (IsKnown db) (IsKnown new) rs (λ x h. (expire_run-IsKnown now r x db h).holds new e)
        known.1)
      ((expire_run-Keeps now r db known.0 c).holds new e)

-- The runs of the table are known.
expired-IsKnown :
    (now : ℕ) (db : Db) → IsConsistent db → All (IsKnown db) (keep (is_expired now) db.runs)
expired-IsKnown now db c =
    All-mono _ (IsKnown db) (keep (is_expired now) db.runs) (λ r h. ground (arith, h.0))
      (All-keep _ (is_expired now) db.runs (All-find_self run_key db.runs c.run_ids))

pub reconcile-Keeps :
    (env : Env) (db : Db) → IsConsistent db → Keeps (reconcile_expired_leases env db)
unfolding reconcile_expired_leases
reconcile-Keeps env db c = Ensures-bind _ _ λ new e. Ensures-ok _ (
    (expire_all-Keeps env.now (keep (is_expired env.now) db.runs) db (expired-IsKnown env.now db c)
        c).holds
      new e)
