-- ===== src/Controller/Invariant/Enqueues.antt =====
-- `enqueue` keeps jobs and runs in agreement.
use dvk_claude.Common.{String, ◌≡◌, refl, Option, none, some, List, arith}
use dvk_claude.Json.{Fields}
use dvk_claude.Result.{ok, Ensures-ok, Ensures-bind}
use dvk_claude.Table.{insert}
use dvk_claude.Controller.Schema.{Job, Db, Env, job_key}
use dvk_claude.Controller.Enqueue.{enqueue, enqueue_new, insert_job, same_request}
use dvk_claude.Controller.Invariant.{IsConsistent, Keeps}
use dvk_claude.Controller.Invariant.Steps.{insert_job-Consistent}

insert_job-insert :
    (job : Job) (jobs new : List Job)
    → insert_job job jobs ≡ ok new
    → insert job_key job jobs ≡ ok new
unfolding insert_job
insert_job-insert job jobs new h = ground arith

enqueue_new-Keeps :
    (env : Env) (task : Fields) (key : Option String) (db : Db)
    → IsConsistent db
    → Keeps (enqueue_new env task key db)
unfolding enqueue_new
enqueue_new-Keeps env task key db c = Ensures-bind _ _ λ named _. Ensures-bind _ _ λ parent _.
    Ensures-bind _ _ λ jobs e. Ensures-bind _ _ λ engine _. Ensures-ok _ (
      insert_job-Consistent _ db.jobs jobs db.runs refl refl (insert_job-insert _ db.jobs jobs e) c)

same_request-Keeps :
    (env : Env) (task : Fields) (key : Option String) (db : Db) (found : Option Job)
    → IsConsistent db
    → Keeps (elim found [ some job ↦ ok (job.job_id, db) | none ↦ enqueue_new env task key db ])
same_request-Keeps env task key db none c = enqueue_new-Keeps env task key db c
same_request-Keeps env task key db (some job) c = Ensures-ok _ c

pub enqueue-Keeps :
    (env : Env) (task : Fields) (db : Db) → IsConsistent db → Keeps (enqueue env task db)
unfolding enqueue
enqueue-Keeps env task db c = Ensures-bind _ _ λ _ _.
    Ensures-bind _ _ λ _ _.
      Ensures-bind _ _ λ key _. same_request-Keeps env task key db (same_request key db.jobs) c
