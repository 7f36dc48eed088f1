-- ===== src/Controller/Invariant/Claims.antt =====
-- `claim` keeps jobs and runs in agreement.
use dvk_claude.Common.{
  OnSome, String, ◌≡◌, true, Option, none, some, List, [], ◌∷◌, ◌∙◌, arith, Option-cases, inl, inr,
  ap,
}
use dvk_claude.Common.All.{All, All-sort, All-keep}
use dvk_claude.Json.{Fields}
use dvk_claude.Result.{ok, Ensures, Ensures-ok, Ensures-err, Ensures-if, Ensures-bind}
use dvk_claude.Table.{find}
use dvk_claude.Table.Keys.{All-find_self}
use dvk_claude.Controller.Schema.{queued, Job, Db, Env, worker_key, job_key}
use dvk_claude.Controller.Claim.{
  claim, claim_job, claim_found, first_match, eligible_jobs, is_eligible, queued_before,
  worker_matches,
}
use dvk_claude.Controller.Workers.{touch_worker}
use dvk_claude.Controller.Invariant.{IsConsistent, Keeps}
use dvk_claude.Controller.Invariant.Starts.{start-Consistent}

-- A queued job of the table that the query of `claim` lists.
abbrev pub Claimable : Db → Job → Type 0
Claimable db j = (find job_key j.job_id db.jobs ≡ some j) × (is_eligible db j ≡ true)

pub eligible_jobs-Claimable : (db : Db) → IsConsistent db → All (Claimable db) (eligible_jobs db)
unfolding eligible_jobs
eligible_jobs-Claimable db c =
    All-sort (Claimable db) queued_before _
      (All-keep _ (is_eligible db) db.jobs (All-find_self job_key db.jobs c.job_ids))

-- The job that is found is one of the list, and the worker may run it.
pub first_match-Ensures :
    (P : Job → Type 0) (worker : Fields) (jobs : List Job)
    → All P jobs
    → Ensures
        (OnSome (λ j. P j × (worker_matches worker j.task ≡ ok true)))
        (first_match worker jobs)
unfolding first_match
first_match-Ensures P worker [] h = Ensures-ok none tt
first_match-Ensures P worker (j ∷ js) h =
    let rest = first_match-Ensures P worker js h.1 in
    Ensures-bind _ _
      λ fits e. Ensures-if fits _ _ (λ y. Ensures-ok _ (h.0, e ∙ ap ok y)) (λ _. rest)

is_eligible-queued : (db : Db) (j : Job) → is_eligible db j ≡ true → j.state ≡ queued
unfolding is_eligible
is_eligible-queued db j h = ground arith

claim_job-Keeps :
    (env : Env) (worker_id : String) (job : Job) (db : Db)
    → Claimable db job
    → IsConsistent db
    → Keeps (claim_job env worker_id job db)
unfolding claim_job
claim_job-Keeps env worker_id job db (found, eligible) c = Ensures-bind _ _ λ runs e. Ensures-ok _ (
    start-Consistent env worker_id job db.jobs db.runs runs found
      (is_eligible-queued db job eligible) e c)

claim_found-Keeps :
    (env : Env) (worker_id : String) (db : Db) (found : Option Job)
    → OnSome (Claimable db) found
    → IsConsistent db
    → Keeps (claim_found env worker_id db found)
claim_found-Keeps env worker_id db none h c = Ensures-ok _ c
claim_found-Keeps env worker_id db (some job) h c = claim_job-Keeps env worker_id job db h c

some_first :
    (db : Db) (worker : Fields) (found : Option Job)
    → OnSome (λ j. Claimable db j × (worker_matches worker j.task ≡ ok true)) found
    → OnSome (Claimable db) found
some_first db worker none h = tt
some_first db worker (some j) h = h.0

pub claim-Keeps :
    (env : Env) (worker_id : String) (db : Db) → IsConsistent db → Keeps (claim env worker_id db)
unfolding claim touch_worker
claim-Keeps env worker_id db c = elim (Option-cases (find worker_key worker_id db.workers)) [
  | inl e ↦ rw (e, claim) (Ensures-err _)
  | inr (worker, e) ↦
      let touched = touch_worker env.now worker_id db in
      rw (e, claim)
        (Ensures-bind _ _ λ full _.
          Ensures-if full _ _ (λ _. Ensures-ok _ c)
            (λ _. Ensures-bind _ _ λ found f.
              claim_found-Keeps env worker_id touched found
                (some_first touched worker.descriptor found (
                  (first_match-Ensures (Claimable touched) worker.descriptor _
                      (eligible_jobs-Claimable touched c)).holds
                    found f))
                c))
]
