-- ===== src/Controller/Invariant/Reachable.antt =====
-- Jobs and runs agree after any history of calls.
use dvk_claude.Common.{String, refl, List, [], ◌∷◌, is_some}
use dvk_claude.Table.{find}
use dvk_claude.Json.{Fields}
use dvk_claude.Result.{Result, ok, err, Ensures-ok, Ensures-bind, Ensures-err, Ensures-if}
use dvk_claude.Controller.Schema.{Db, Env, empty, worker_key, project_key}
use dvk_claude.Controller.Workers.{register_worker, provision_worker_token, heartbeat_worker}
use dvk_claude.Controller.Projects.{register_project, remove_project}
use dvk_claude.Controller.Machine.{
  Call, registers_worker, provisions_token, beats, registers_project, removes_project, enqueues,
  claims, renews, reconciles, reports, resolves, after, after_db, step, run,
}
use dvk_claude.Controller.Invariant.{IsConsistent, Keeps, KeepsDb}
use dvk_claude.Controller.Invariant.Enqueues.{enqueue-Keeps}
use dvk_claude.Controller.Invariant.Claims.{claim-Keeps}
use dvk_claude.Controller.Invariant.Expiry.{heartbeat_run-Keeps, reconcile-Keeps}
use dvk_claude.Controller.Invariant.Endings.{ingest_result-Keeps}
use dvk_claude.Controller.Invariant.Resolutions.{resolve_gate-Keeps}

register_worker-Keeps :
    (env : Env) (worker : Fields) (db : Db)
    → IsConsistent db
    → Keeps (register_worker env worker db)
unfolding register_worker
register_worker-Keeps env worker db c =
    Ensures-bind _ _ λ _ _. Ensures-bind _ _ λ _ _. Ensures-ok _ c

provision-Keeps :
    (env : Env) (worker_id token : String) (db : Db)
    → IsConsistent db
    → KeepsDb (provision_worker_token env worker_id token db)
unfolding provision_worker_token
provision-Keeps env worker_id token db c = Ensures-bind _ _ λ _ _. Ensures-ok _ c

heartbeat_worker-Keeps :
    (env : Env) (worker_id : String) (db : Db)
    → IsConsistent db
    → KeepsDb (heartbeat_worker env worker_id db)
unfolding heartbeat_worker
heartbeat_worker-Keeps env worker_id db c =
    Ensures-if (is_some (find worker_key worker_id db.workers)) _ _ (λ _. Ensures-ok _ c)
      (λ _. Ensures-err _)

register_project-Keeps :
    (env : Env) (manifest : Fields) (db : Db)
    → IsConsistent db
    → Keeps (register_project env manifest db)
unfolding register_project
register_project-Keeps env manifest db c =
    Ensures-bind _ _ λ _ _. Ensures-bind _ _ λ _ _. Ensures-ok _ c

remove_project-Keeps :
    (env : Env) (project_id : String) (db : Db)
    → IsConsistent db
    → KeepsDb (remove_project env project_id db)
unfolding remove_project
remove_project-Keeps env project_id db c =
    Ensures-if (is_some (find project_key project_id db.projects)) _ _ (λ _. Ensures-ok _ c)
      (λ _. Ensures-err _)

after-IsConsistent {ℓ} :
    {A : Type ℓ} (db : Db) (r : Result (A × Db))
    → Keeps r
    → IsConsistent db
    → IsConsistent (after db r)
after-IsConsistent db (ok (a, new)) k c = k.holds (a, new) refl
after-IsConsistent db (err e) k c = c

after_db-IsConsistent :
    (db : Db) (r : Result Db) → KeepsDb r → IsConsistent db → IsConsistent (after_db db r)
after_db-IsConsistent db (ok new) k c = k.holds new refl
after_db-IsConsistent db (err e) k c = c

-- Every call, whether it returns or raises, keeps jobs and runs in agreement.
pub step-IsConsistent :
    (call : Env × Call) (db : Db) → IsConsistent db → IsConsistent (step call db)
unfolding step
step-IsConsistent (env, registers_worker worker) db c =
    after-IsConsistent db _ (register_worker-Keeps env worker db c) c
step-IsConsistent (env, provisions_token worker_id token) db c =
    after_db-IsConsistent db _ (provision-Keeps env worker_id token db c) c
step-IsConsistent (env, beats worker_id) db c =
    after_db-IsConsistent db _ (heartbeat_worker-Keeps env worker_id db c) c
step-IsConsistent (env, registers_project manifest) db c =
    after-IsConsistent db _ (register_project-Keeps env manifest db c) c
step-IsConsistent (env, removes_project project_id) db c =
    after_db-IsConsistent db _ (remove_project-Keeps env project_id db c) c
step-IsConsistent (env, enqueues task) db c =
    after-IsConsistent db _ (enqueue-Keeps env task db c) c
step-IsConsistent (env, claims worker_id) db c =
    after-IsConsistent db _ (claim-Keeps env worker_id db c) c
step-IsConsistent (env, renews run_id lease_id token) db c =
    after_db-IsConsistent db _ (heartbeat_run-Keeps env run_id lease_id token db c) c
step-IsConsistent (env, reconciles) db c = after-IsConsistent db _ (reconcile-Keeps env db c) c
step-IsConsistent (env, reports envelope) db c =
    after_db-IsConsistent db _ (ingest_result-Keeps env envelope db c) c
step-IsConsistent (env, resolves job_id gate decision source actor note) db c =
    after-IsConsistent db _ (resolve_gate-Keeps env job_id gate decision source actor note db c) c

run-IsConsistent :
    (calls : List (Env × Call)) (db : Db) → IsConsistent db → IsConsistent (run calls db)
unfolding run
run-IsConsistent [] db c = c
run-IsConsistent (x ∷ xs) db c = run-IsConsistent xs (step x db) (step-IsConsistent x db c)

empty-IsConsistent : IsConsistent empty
unfolding find
empty-IsConsistent = record {
  job_ids = tt;
  run_ids = tt;
  run_active = λ id r h s. cc;
  job_active = λ id j h. cc;
  attempts = λ id r h. cc;
}

-- After any history of calls on a new database: identifiers are unique; a running run is the active
-- attempt of its job, which is running and counts exactly this attempt; a job is running exactly if
-- it has an active run, which is running and its own; and no run is ahead of its job's attempts.
pub history-IsConsistent : (calls : List (Env × Call)) → IsConsistent (run calls empty)
history-IsConsistent calls = run-IsConsistent calls empty empty-IsConsistent
