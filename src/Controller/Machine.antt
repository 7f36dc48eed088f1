-- ===== src/Controller/Machine.antt =====
-- The controller as a machine: the calls that write to the database, and the histories of calls.
-- The HTTP server serves one call at a time, under its lock.
use dvk_claude.Common.{String, List, [], ◌∷◌}
use dvk_claude.Json.{Value, Fields}
use dvk_claude.Result.{Result, ok, err}
use dvk_claude.Controller.Schema.{Decision, Db, Env}
use dvk_claude.Controller.Workers.{register_worker, provision_worker_token, heartbeat_worker}
use dvk_claude.Controller.Projects.{register_project, remove_project}
use dvk_claude.Controller.Enqueue.{enqueue}
use dvk_claude.Controller.Claim.{claim}
use dvk_claude.Controller.Leases.{heartbeat_run, reconcile_expired_leases}
use dvk_claude.Controller.Results.{ingest_result}
use dvk_claude.Controller.Gates.{resolve_gate}

pub data Call : Type 0 where
  registers_worker : Fields → Call
  provisions_token : String → String → Call
  beats : String → Call
  registers_project : Fields → Call
  removes_project : String → Call
  enqueues : Fields → Call
  claims : String → Call
  renews : String → String → String → Call
  reconciles : Call
  reports : Fields → Call
  resolves : Value → Value → Decision → Value → Value → Value → Call

-- A call that raises leaves the database as it was.
abbrev pub after {ℓ} : {A : Type ℓ} → Db → Result (A × Db) → Db
after db (ok (a, new)) = new
after db (err e) = db

abbrev pub after_db : Db → Result Db → Db
after_db db (ok new) = new
after_db db (err e) = db

unfoldable pub step : Env × Call → Db → Db
step (env, registers_worker worker) db = after db (register_worker env worker db)
step (env, provisions_token worker_id token) db =
    after_db db (provision_worker_token env worker_id token db)
step (env, beats worker_id) db = after_db db (heartbeat_worker env worker_id db)
step (env, registers_project manifest) db = after db (register_project env manifest db)
step (env, removes_project project_id) db = after_db db (remove_project env project_id db)
step (env, enqueues task) db = after db (enqueue env task db)
step (env, claims worker_id) db = after db (claim env worker_id db)
step (env, renews run_id lease_id token) db =
    after_db db (heartbeat_run env run_id lease_id token db)
step (env, reconciles) db = after db (reconcile_expired_leases env db)
step (env, reports envelope) db = after_db db (ingest_result env envelope db)
step (env, resolves job_id gate decision source actor note) db =
    after db (resolve_gate env job_id gate decision source actor note db)

unfoldable pub run : List (Env × Call) → Db → Db
unfolding step
run [] db = db
run (c ∷ cs) db = run cs (step c db)
