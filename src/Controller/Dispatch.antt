-- ===== src/Controller/Dispatch.antt =====
-- Which job `claim` hands to a worker.
use dvk_claude.Common.{
  ◌+◌, String, ◌≡◌, refl, ap, ◌∙◌, true, false, Option, none, some, List, [], ◌∷◌, arith,
  Option-cases, inl, inr, keep, OnSome, eq_refl,
}
use dvk_claude.Common.All.{All, All-mono}
use dvk_claude.Common.TextOrder.{text_lt-asym, text_lt_trans}
use dvk_claude.Common.Order.{IsSorted, sort-IsSorted, All-of_sort, All-of_keep}
use dvk_claude.Json.{Fields}
use dvk_claude.Result.{ok, Ensures, Ensures-ok, Ensures-err, Ensures-if, Ensures-bind}
use dvk_claude.Table.{find}
use dvk_claude.Table.Laws.{find-insert}
use dvk_claude.Controller.Schema.{Worker, Job, Run, Db, Env, worker_key, job_key, run_key, event}
use dvk_claude.Controller.Claim.{
  Claim, claim, claim_job, claim_found, first_match, eligible_jobs, is_eligible, queued_before,
  worker_matches, new_run, insert_run,
}
use dvk_claude.Controller.Workers.{touch_worker}
use dvk_claude.Controller.Invariant.{IsConsistent}
use dvk_claude.Controller.Invariant.Claims.{Claimable, eligible_jobs-Claimable, first_match-Ensures}

queued_before-asym : (a b : Job) → queued_before a b ≡ true → queued_before b a ≡ false
unfolding queued_before
queued_before-asym a b h = ground (arith, text_lt-asym a.job_id b.job_id)

queued_before_trans :
    (a b c : Job) → queued_before a b ≡ true → queued_before b c ≡ true → queued_before a c ≡ true
unfolding queued_before
queued_before_trans a b c h k = ground (arith, text_lt_trans a.job_id b.job_id c.job_id)

-- The worker may run the job, and no job before it in the order.
abbrev pub IsFirst : Fields → List Job → Job → Type 0
IsFirst worker jobs j =
    (worker_matches worker j.task ≡ ok true)
    × All (λ k. worker_matches worker k.task ≡ ok true → queued_before k j ≡ false) jobs

queued_before_irrefl : (a : Job) → queued_before a a ≡ false
queued_before_irrefl a = ground (arith, queued_before-asym a a)

later-IsFirst :
    (worker : Fields) (j : Job) (js : List Job) (found : Option Job)
    → worker_matches worker j.task ≡ ok false
    → OnSome (IsFirst worker js) found
    → OnSome (IsFirst worker (j ∷ js)) found
later-IsFirst worker j js none n h = tt
later-IsFirst worker j js (some k) n (m, a) = (m, ((λ q. absurd (cc)), a))

first_match-IsFirst :
    (worker : Fields) (jobs : List Job)
    → IsSorted queued_before jobs
    → Ensures (OnSome (IsFirst worker jobs)) (first_match worker jobs)
unfolding first_match
first_match-IsFirst worker [] s = Ensures-ok none tt
first_match-IsFirst worker (j ∷ js) (h, s) =
    let rest = first_match-IsFirst worker js s in
    Ensures-bind _ _ λ fits e.
      Ensures-if fits _ _
        (λ y.
          Ensures-ok _
            (e ∙ ap ok y, ((λ _. queued_before_irrefl j), All-mono _ _ js (λ k q _. q) h)))
        (λ n. record {
          holds = λ found f. later-IsFirst worker j js found (e ∙ ap ok n) (rest.holds found f);
        })

-- The job that the worker is handed: queued and due, one that the worker may run, and before every
-- other such job; with the attempt that follows its last one, and the run that is entered for it.
abbrev pub IsDispatch : Env → String → Db → Db → Claim → Type 0
IsDispatch env worker_id db new c =
    (w : Worker) × (j : Job) × (find worker_key worker_id db.workers ≡ some w)
    × (find job_key c.job_id db.jobs ≡ some j)
    × (is_eligible db j ≡ true)
    × (worker_matches w.descriptor j.task ≡ ok true)
    × All
        (λ k.
          is_eligible db k ≡ true
          → worker_matches w.descriptor k.task ≡ ok true
          → queued_before k j ≡ false)
        db.jobs
    × (c.attempt ≡ j.attempt + 1)
    × (find run_key c.run_id new.runs ≡ some (new_run env worker_id j))

eligible_jobs-IsSorted : (db : Db) → IsSorted queued_before (eligible_jobs db)
unfolding eligible_jobs
eligible_jobs-IsSorted db =
    sort-IsSorted queued_before queued_before-asym queued_before_trans
      (keep (is_eligible db) db.jobs)

first_of_All :
    (worker : Fields) (db : Db) (j : Job)
    → IsFirst worker (eligible_jobs db) j
    → All
        (λ k.
          is_eligible db k ≡ true
          → worker_matches worker k.task ≡ ok true
          → queued_before k j ≡ false)
        db.jobs
unfolding eligible_jobs
first_of_All worker db j h =
    All-of_keep _ (is_eligible db) db.jobs (All-of_sort _ queued_before _ h.1)

entered :
    (env : Env) (worker_id : String) (j : Job) (runs new : List Run)
    → insert_run (new_run env worker_id j) runs ≡ ok new
    → find run_key env.run_id new ≡ some (new_run env worker_id j)
unfolding insert_run
entered env worker_id j runs new h =
    ground
      (arith, find-insert run_key env.run_id (new_run env worker_id j) runs new, eq_refl env.run_id)

dispatched :
    (env : Env) (worker_id : String) (w : Worker) (j : Job) (db : Db)
    → find worker_key worker_id db.workers ≡ some w
    → Claimable db j
    → IsFirst w.descriptor (eligible_jobs db) j
    → Ensures
        (λ r. OnSome (IsDispatch env worker_id db r.1) r.0)
        (claim_job env worker_id j (touch_worker env.now worker_id db))
unfolding claim_job event
dispatched env worker_id w j db f (g, e) h = Ensures-bind _ _ λ runs i.
    Ensures-ok _
      (w, j, f, g, e, h.0, first_of_All w.descriptor db j h, refl, entered env worker_id j _ runs i)

IsDispatch-found :
    (env : Env) (worker_id : String) (w : Worker) (db : Db) (found : Option Job)
    → find worker_key worker_id db.workers ≡ some w
    → OnSome (λ j. Claimable db j × (worker_matches w.descriptor j.task ≡ ok true)) found
    → OnSome (IsFirst w.descriptor (eligible_jobs db)) found
    → Ensures
        (λ r. OnSome (IsDispatch env worker_id db r.1) r.0)
        (claim_found env worker_id (touch_worker env.now worker_id db) found)
IsDispatch-found env worker_id w db none f c h = Ensures-ok _ tt
IsDispatch-found env worker_id w db (some j) f c h = dispatched env worker_id w j db f c.0 h

-- On a database in agreement, a job that `claim` hands to a worker is queued, its parent is done,
-- and the worker may run it; no other such job was created earlier, or at the same time with a
-- smaller identifier. The claim counts the next attempt, and its run is entered with a lease of three
-- minutes.
pub claim-IsDispatch :
    (env : Env) (worker_id : String) (db : Db)
    → IsConsistent db
    → Ensures (λ r. OnSome (IsDispatch env worker_id db r.1) r.0) (claim env worker_id db)
unfolding claim touch_worker
claim-IsDispatch env worker_id db c = elim (Option-cases (find worker_key worker_id db.workers)) [
  | inl e ↦ rw (e, claim) (Ensures-err _)
  | inr (w, e) ↦
      rw (e, claim)
        (Ensures-bind _ _ λ full _.
          Ensures-if full _ _ (λ _. Ensures-ok _ tt)
            (λ _. Ensures-bind _ _ λ found f.
              IsDispatch-found env worker_id w db found e
                ((first_match-Ensures (Claimable db) w.descriptor _
                    (eligible_jobs-Claimable db c)).holds
                  found f)
                ((first_match-IsFirst w.descriptor _ (eligible_jobs-IsSorted db)).holds found f)))
]
