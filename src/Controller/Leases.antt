-- ===== src/Controller/Leases.antt =====
-- `heartbeat_run` and `reconcile_expired_leases` of controller.py.
use dvk_claude.Common.{
  ℕ, ◌+◌, String, Bool, false, ◌&&◌, none, some, List, [], ◌∷◌, ◌==◌, ltb, leb, is_empty, keep,
  if◌then◌else◌,
}
use dvk_claude.Result.{Result, ok, err, stale_result, type_error, ◌>>=◌}
use dvk_claude.Json.{string, end, field}
use dvk_claude.Table.{find, update}
use dvk_claude.Controller.Schema.{
  State, queued, needs_reconciliation, stale, is_running, state_name, Job, Run, Db, Env, job_key,
  run_key, event,
}
use dvk_claude.Controller.Claim.{lease_duration_ms}

-- The condition on `runs` in the UPDATE of `heartbeat_run`.
abbrev pub owns_lease : String → String → ℕ → Run → Bool
owns_lease lease_id lease_token now r =
    r.lease_id == lease_id
    && r.lease_token == lease_token
    && is_running r.state
    && leb now r.lease_expires_at

abbrev pub renew_lease : ℕ → Run → Run
renew_lease now r = record r { lease_expires_at = now + lease_duration_ms }

unfoldable pub heartbeat_run : Env → String → String → String → Db → Result Db
unfolding find update event
heartbeat_run env run_id lease_id lease_token db = elim (find run_key run_id db.runs) [
  | none ↦ lost
  | some r ↦ renewed r
]
  where
    lost : Result Db
    lost = err (stale_result "lease is not active")

    renewed : Run → Result Db
    renewed r =
        if owns_lease lease_id lease_token env.now r
        then ok (
            event env.now "run" run_id "LEASE_RENEWED" end
              (record db { runs = update run_key run_id (renew_lease env.now) db.runs }))
        else lost

-- SELECT * FROM runs WHERE state='RUNNING' AND lease_expires_at < ?
abbrev pub is_expired : ℕ → Run → Bool
is_expired now r = is_running r.state && ltb r.lease_expires_at now

abbrev is_active_in : String → Job → Bool
is_active_in run_id j = elim j.active_run_id [ none ↦ false | some r ↦ r == run_id ]

-- UPDATE jobs SET state=?, active_run_id=NULL WHERE job_id=? AND active_run_id=?
unfoldable pub release_job : State → String → Job → Job
release_job target run_id j =
    if is_active_in run_id j then record j { state = target; active_run_id = none } else j

-- "QUEUED" for a job that may be tried again, else "NEEDS_RECONCILIATION".
unfoldable pub expiry_target : String → List Job → Result State
unfolding find
expiry_target job_id jobs =
    if is_empty job_id then ok needs_reconciliation else elim (find job_key job_id jobs) [
      | none ↦ err type_error
      | some j ↦ ok (if j.idempotent then queued else needs_reconciliation)
    ]

abbrev pub mark_stale : Run → Run
mark_stale r = record r { state = stale }

-- The body of the loop of `reconcile_expired_leases`.
unfoldable pub expire_run : ℕ → Run → Db → Result Db
unfolding expiry_target update release_job event
expire_run now run db = do
  target ← expiry_target run.job_id db.jobs
  ok (
      event now "run" run.run_id "LEASE_EXPIRED"
        (field "job_id" (string run.job_id) (field "disposition" (string (state_name target)) end))
        (record db {
          runs = update run_key run.run_id mark_stale db.runs;
          jobs = update job_key run.job_id (release_job target run.run_id) db.jobs;
        }))

unfoldable pub expire_all : ℕ → List Run → Db → Result Db
unfolding expire_run
expire_all now [] db = ok db
expire_all now (r ∷ rs) db = expire_run now r db >>= expire_all now rs

-- `reconcile_expired_leases`: the runs that it has expired, and the new database.
unfoldable pub reconcile_expired_leases : Env → Db → Result (List Run × Db)
unfolding expire_all keep
reconcile_expired_leases env db =
    expire_all env.now (keep (is_expired env.now) db.runs) db >>= λ new.
    ok (keep (is_expired env.now) db.runs, new)
