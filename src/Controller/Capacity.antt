-- ===== src/Controller/Capacity.antt =====
-- `claim` keeps a worker within its capacity.
use dvk_claude.Common.{
  ℕ, ◌+◌, ◌≤◌, ◌<◌, String, ◌≡◌, ap, subst, ◌∙◌, Bool, false, Option, none, some, List, [], ◌∷◌,
  ◌++◌, arith, count,
}
use dvk_claude.Json.{pos, Value, integer, null, get_or}
use dvk_claude.Result.{ok, Ensures, Ensures-ok, Ensures-if, Ensures-bind}
use dvk_claude.Table.{find}
use dvk_claude.Table.Keys.{insert-eq-ok}
use dvk_claude.Controller.Schema.{Worker, Job, Run, Db, Env, worker_key, run_key, event}
use dvk_claude.Controller.Claim.{
  claim, claim_job, claim_found, active_runs, holds_lease, new_run, insert_run, at_least,
}
use dvk_claude.Controller.Workers.{touch_worker}

count-append {ℓ} :
    {A : Type ℓ} (p : A → Bool) (xs : List A) (x : A) → count p (xs ++ x ∷ []) ≤ count p xs + 1
unfolding count
count-append p [] x = ground arith
count-append p (y ∷ ys) x = ground (arith, count-append p ys x)

-- The runs whose lease the worker holds are at most as many as its descriptor allows.
abbrev pub WithinCapacity : String → ℕ → ℕ → Db → Type 0
WithinCapacity worker_id now capacity db = active_runs worker_id now db ≤ capacity

inserted : (run : Run) (runs new : List Run) → insert_run run runs ≡ ok new → runs ++ run ∷ [] ≡ new
unfolding insert_run
inserted run runs new h = (insert-eq-ok run_key run runs new (ground (arith, h))).1

claim_job-WithinCapacity :
    (env : Env) (worker_id : String) (capacity : ℕ) (job : Job) (db : Db)
    → active_runs worker_id env.now db < capacity
    → Ensures (λ r. WithinCapacity worker_id env.now capacity r.1) (claim_job env worker_id job db)
unfolding claim_job active_runs event
claim_job-WithinCapacity env worker_id capacity job db h = Ensures-bind _ _ λ runs e.
    let added = inserted (new_run env worker_id job) db.runs runs e in
    Ensures-ok _ (
      subst (λ rs. count (holds_lease worker_id env.now) rs ≤ capacity) added
        (omega (
          arith,
          h,
          count-append (holds_lease worker_id env.now) db.runs (new_run env worker_id job),
        )))

found-WithinCapacity :
    (env : Env) (worker_id : String) (capacity : ℕ) (found : Option Job) (db : Db)
    → active_runs worker_id env.now db < capacity
    → Ensures
        (λ r. WithinCapacity worker_id env.now capacity r.1)
        (claim_found env worker_id db found)
found-WithinCapacity env worker_id capacity none db h = Ensures-ok _ (omega (arith, h))
found-WithinCapacity env worker_id capacity (some job) db h =
    claim_job-WithinCapacity env worker_id capacity job db h

below :
    (n capacity : ℕ) (v : Value)
    → v ≡ integer (pos capacity)
    → at_least n v ≡ ok false
    → n < capacity
below n capacity v e h = ground (arith, e, h)

-- A worker that holds no more leases than its descriptor allows jobs holds no more after a claim,
-- whatever the claim returns.
pub claim-WithinCapacity :
    (env : Env) (worker_id : String) (w : Worker) (capacity : ℕ) (db : Db)
    → find worker_key worker_id db.workers ≡ some w
    → get_or "max_concurrent_jobs" null w.descriptor ≡ integer (pos capacity)
    → WithinCapacity worker_id env.now capacity db
    → Ensures (λ r. WithinCapacity worker_id env.now capacity r.1) (claim env worker_id db)
unfolding claim touch_worker
claim-WithinCapacity env worker_id w capacity db f d h =
    rw (f, claim)
      (Ensures-bind _ _ λ full e.
        Ensures-if full _ _ (λ _. Ensures-ok _ h)
          (λ n. Ensures-bind _ _ λ found _.
            found-WithinCapacity env worker_id capacity found (touch_worker env.now worker_id db)
              (below (active_runs worker_id env.now db) capacity _ d (e ∙ ap ok n))))
