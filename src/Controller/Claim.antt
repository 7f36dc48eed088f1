-- ===== src/Controller/Claim.antt =====
-- `claim` of controller.py, and the lookup of the jobs that a worker may run.
use dvk_claude.Common.{
  ℕ, ◌+◌, String, Bool, true, false, not, ◌&&◌, ◌||◌, Option, none, some, List, [], ◌∷◌, ◌==◌, ◌=?◌,
  ltb, leb, text_lt, all, any, count, keep, sort, if◌then◌else◌,
}
use dvk_claude.Result.{Result, ok, err, type_error, integrity_error, ◌>>=◌}
use dvk_claude.Json.{
  pos, negsuc, Value, null, boolean, integer, string, array, object, Items, nil, cons, Fields, end,
  field, get_or, put, to_list,
}
use dvk_claude.Json.Equality.{value_eq}
use dvk_claude.Table.{find, update, insert}
use dvk_claude.Controller.Schema.{
  running, is_queued, is_running, is_done, Job, Run, approved, rejected, GateDecision, Db, Env,
  worker_key, job_key, run_key, event,
}
use dvk_claude.Controller.Validate.{given}
use dvk_claude.Controller.Workers.{unknown_worker, touch_worker}

abbrev pub lease_duration_ms : ℕ
lease_duration_ms = 180000

-- `n >= v` for a number `n`
abbrev pub at_least : ℕ → Value → Result Bool
at_least n (integer (pos m)) = ok (leb m n)
at_least n (integer (negsuc m)) = ok true
at_least n (boolean b) = ok (leb (if b then 1 else 0) n)
at_least n v = err type_error

-- The runs of a worker whose lease has not run out.
abbrev pub holds_lease : String → ℕ → Run → Bool
holds_lease worker_id now r =
    r.worker_id == worker_id && is_running r.state && leb now r.lease_expires_at

unfoldable pub active_runs : String → ℕ → Db → ℕ
unfolding count
active_runs worker_id now db = count (holds_lease worker_id now) db.runs

abbrev parent_done : Option String → List Job → Bool
parent_done none jobs = true
parent_done (some p) jobs = elim (find job_key p jobs) [ none ↦ false | some j ↦ is_done j.state ]

-- The WHERE clause of the query of `claim`.
unfoldable pub is_eligible : Db → Job → Bool
unfolding find
is_eligible db j = is_queued j.state && parent_done j.dependency_job_id db.jobs

-- ORDER BY created_at, job_id
unfoldable pub queued_before : Job → Job → Bool
queued_before a b =
    ltb a.created_at b.created_at || (a.created_at =? b.created_at && text_lt a.job_id b.job_id)

unfoldable pub eligible_jobs : Db → List Job
unfolding is_eligible queued_before keep sort
eligible_jobs db = sort queued_before (keep (is_eligible db) db.jobs)

abbrev hashable : Value → Bool
hashable (array vs) = false
hashable (object fs) = false
hashable v = true

-- `set(required).issubset(offered)`
unfoldable pub offers_all : Value → Value → Result Bool
unfolding all any
offers_all (array required) (array offered) =
    if all hashable (to_list required) && all hashable (to_list offered)
    then ok (all (λ v. any (value_eq v) (to_list offered)) (to_list required))
    else err type_error
offers_all v w = err type_error

abbrev targets_other : Option Value → Fields → Bool
targets_other none worker = false
targets_other (some v) worker = not (value_eq (get_or "worker_id" null worker) v)

-- `_worker_matches`
unfoldable pub worker_matches : Fields → Fields → Result Bool
unfolding offers_all value_eq given get_or
worker_matches worker task =
    if targets_other (given "worker_id" task) worker
    then ok false
    else if value_eq (get_or "platform" null worker) (get_or "platform" null task)
    then offers_all (get_or "required_capabilities" null task) (get_or "capabilities" null worker)
    else ok false

-- The first of the jobs that the worker may run.
unfoldable pub first_match : Fields → List Job → Result (Option Job)
unfolding worker_matches
first_match worker [] = ok none
first_match worker (j ∷ js) =
    let rest = first_match worker js in
    worker_matches worker j.task >>= λ fits. if fits then ok (some j) else rest

abbrev pub earlier_decision : GateDecision → GateDecision → Bool
earlier_decision a b =
    ltb a.decided_at b.decided_at || (a.decided_at =? b.decided_at && text_lt a.gate b.gate)

abbrev pub is_approval : GateDecision → Bool
is_approval d = elim d.decision [ approved ↦ true | rejected ↦ false ]

-- `_approved_gates`
unfoldable pub approved_gates : String → Db → List GateDecision
unfolding keep sort
approved_gates job_id db =
    sort earlier_decision (keep (λ d. d.job_id == job_id && is_approval d) db.gate_decisions)

abbrev gate_items : List GateDecision → Items
gate_items [] = nil
gate_items (d ∷ ds) = cons (string d.gate) (gate_items ds)

abbrev with_gate_context : List GateDecision → Fields → Fields
with_gate_context [] task = task
with_gate_context ds task =
    put "_hermes_gate_context" (object (field "approved_gates" (array (gate_items ds)) end)) task

pub record Claim : Type 0 where
  pub job_id : String
  pub run_id : String
  pub attempt : ℕ
  pub lease_id : String
  pub lease_token : String
  pub task : Fields

abbrev pub new_run : Env → String → Job → Run
new_run env worker_id job = record {
  run_id = env.run_id;
  job_id = job.job_id;
  worker_id = worker_id;
  attempt = job.attempt + 1;
  lease_id = env.lease_id;
  lease_token = env.lease_token;
  state = running;
  claimed_at = env.now;
  lease_expires_at = env.now + lease_duration_ms;
  result = none;
}

-- INSERT INTO runs: the unique index on (job_id, attempt), and the primary key.
unfoldable pub insert_run : Run → List Run → Result (List Run)
unfolding any insert
insert_run run runs =
    if any (λ r. r.job_id == run.job_id && r.attempt =? run.attempt) runs
    then err integrity_error
    else insert run_key run runs

-- UPDATE jobs SET state='RUNNING', attempt=?, active_run_id=? WHERE job_id=? AND state='QUEUED'
unfoldable pub start_job : String → ℕ → Job → Job
start_job run_id attempt j =
    if is_queued j.state
    then record j { state = running; attempt = attempt; active_run_id = some run_id }
    else j

unfoldable pub claim_job : Env → String → Job → Db → Result (Option Claim × Db)
unfolding approved_gates start_job insert_run update event put
claim_job env worker_id job db = do
  runs ← insert_run (new_run env worker_id job) db.runs
  ok (some claimed, event env.now "run" env.run_id "RUN_CLAIMED" payload (started runs))
  where
    claimed : Claim
    claimed = record {
      job_id = job.job_id;
      run_id = env.run_id;
      attempt = job.attempt + 1;
      lease_id = env.lease_id;
      lease_token = env.lease_token;
      task = with_gate_context (approved_gates job.job_id db) job.task;
    }

    payload : Fields
    payload = field "job_id" (string job.job_id) (
        field "attempt" (integer (pos (job.attempt + 1)))
          (field "worker_id" (string worker_id) end))

    started : List Run → Db
    started runs = record db {
      jobs = update job_key job.job_id (start_job env.run_id (job.attempt + 1)) db.jobs;
      runs = runs;
    }

abbrev pub claim_found : Env → String → Db → Option Job → Result (Option Claim × Db)
claim_found env worker_id db none = ok (none, db)
claim_found env worker_id db (some job) = claim_job env worker_id job db

-- `claim`, whose transaction is rolled back when it raises.
unfoldable pub claim : Env → String → Db → Result (Option Claim × Db)
unfolding find touch_worker active_runs first_match eligible_jobs claim_job get_or
claim env worker_id db = elim (find worker_key worker_id db.workers) [
  | none ↦ unknown_worker
  | some worker ↦
      let touched = touch_worker env.now worker_id db in
      at_least (active_runs worker_id env.now db)
        (get_or "max_concurrent_jobs" null worker.descriptor)
      >>= λ full.
          if full
          then ok (none, touched)
          else first_match worker.descriptor (eligible_jobs touched)
            >>= claim_found env worker_id touched
]
