-- ===== src/Controller/Results.antt =====
-- `ingest_result` of controller.py.
use dvk_claude.Common.{
  ℕ, String, Bool, false, not, ◌&&◌, Option, none, some, List, [], ◌∷◌, ◌==◌, any, concat,
  if◌then◌else◌,
}
use dvk_claude.Result.{
  Result, ok, err, controller_error, stale_result, type_error, ◌>>=◌, ◌>>◌, raise_if,
}
use dvk_claude.Json.{
  Value, null, string, array, object, Items, nil, cons, Fields, end, field, get, get_or, put, has,
  contains, is_str, is_number, keys,
}
use dvk_claude.Json.Equality.{value_eq, same_json}
use dvk_claude.Table.{find, update}
use dvk_claude.Controller.Schema.{
  State, wait_user, blocked, is_running, is_terminal, state_name, Job, Run, Db, Env, job_key,
  run_key, event,
}
use dvk_claude.Controller.Validate.Envelope.{Outcome, validate_envelope, task_engine}
use dvk_claude.Controller.Claim.{is_approval}

abbrev pub find_run : Option Value → List Run → Option Run
find_run (some (string run_id)) runs = find run_key run_id runs
find_run v runs = none

abbrev pub reported_before : Option Fields → Fields → Bool
reported_before none envelope = false
reported_before (some old) envelope = same_json (object old) (object envelope)

-- The same text was ingested before: the result is acknowledged once more.
unfoldable pub is_replay : Fields → Option Run → Bool
unfolding same_json
is_replay envelope none = false
is_replay envelope (some r) = is_terminal r.state && reported_before r.result envelope

abbrev pub names : String → Option Value → Bool
names s none = false
names s (some v) = is_str s v

abbrev pub counts : ℕ → Option Value → Bool
counts n none = false
counts n (some v) = is_number n v

-- The envelope names the run's job, worker, lease and attempt, and knows its token.
unfoldable pub owns_run : Fields → Run → Bool
unfolding get
owns_run envelope r =
    names r.job_id (get "job_id" envelope)
    && names r.worker_id (get "worker_id" envelope)
    && names r.lease_id (get "lease_id" envelope)
    && counts r.attempt (get "attempt" envelope)
    && names r.lease_token (get "lease_token" envelope)

-- The run that a result may end.
unfoldable pub open_run : Fields → Option Run → Result Run
unfolding owns_run
open_run envelope none = err (stale_result "run is stale or unknown")
open_run envelope (some r) =
    if is_running r.state
    then (if owns_run envelope r
        then ok r
        else err (stale_result "result does not own active lease"))
    else err (stale_result "run is stale or unknown")

abbrev pub is_active : String → Option String → Bool
is_active run_id none = false
is_active run_id (some r) = r == run_id

unfoldable pub active_job : Run → Db → Result Job
unfolding find
active_job r db = elim (find job_key r.job_id db.jobs) [
  | none ↦ err (stale_result "result is not the active attempt")
  | some j ↦
      if is_active r.run_id j.active_run_id
      then ok j
      else err (stale_result "result is not the active attempt")
]

abbrev pub reported_engine : Value → Fields → Value
reported_engine expected envelope = elim (get_or "engine" null envelope) [
  | null ↦ if has "codex_result" envelope then expected else null
  | v ↦ v
]

-- The engine that reports must be the task's; a legacy envelope need not name it.
unfoldable pub check_engine : Fields → Fields → Result Value
unfolding task_engine value_eq get get_or
check_engine task envelope = do
  expected ← task_engine task
  raise_if (has "codex_result" envelope && is_str "github_api" expected)
      (controller_error "legacy codex_result cannot report an integration")
  raise_if (not (value_eq (reported_engine expected envelope) expected))
      (controller_error "result engine does not match task")
  ok (reported_engine expected envelope)

-- `_gate_is_approved`
unfoldable pub gate_is_approved : String → String → Db → Bool
unfolding any
gate_is_approved job_id gate db =
    any (λ d. d.job_id == job_id && d.gate == gate && is_approval d) db.gate_decisions

abbrev append_text : Items → String → Items
append_text nil s = cons (string s) nil
append_text (cons v vs) s = cons v (append_text vs s)

abbrev characters : String → Items
characters String.[] = nil
characters (String.◌∷◌ c s) = cons (string (String.◌∷◌ c String.[])) (characters s)

abbrev pub texts : List String → Items
texts [] = nil
texts (s ∷ ss) = cons (string s) (texts ss)

-- `list(v)`
unfoldable pub list_of : Value → Result Items
list_of (array vs) = ok vs
list_of (string s) = ok (characters s)
list_of (object fs) = ok (texts (keys fs))
list_of v = err type_error

-- The payload of a result that asks again for a gate which was approved before.
unfoldable pub blocked_payload : String → Fields → Result Fields
unfolding list_of put get_or
blocked_payload gate payload = do
  evidence ← list_of (get_or "evidence" (array nil) payload)
  ok (
      put "status" (string "BLOCKED") (
        put "summary" (string (concat "adapter re-requested already-approved human gate: " gate)) (
          put "gate" null (
            put "evidence"
              (array (
                append_text evidence
                  (concat "gate-policy: blocked re-request of already-approved gate " gate)))
              payload))))

abbrev pub with_payload : Fields → Fields → Fields
with_payload payload envelope =
    if has "engine_result" envelope
    then put "engine_result" (object payload) envelope
    else put "codex_result" (object payload) envelope

-- What is written to the run and to the job, and the gate that the event names.
pub record Verdict : Type 0 where
  pub outcome : State
  pub gate : Value
  pub envelope : Fields
  pub db : Db

abbrev pub verdict : State → Value → Fields → Db → Verdict
verdict outcome gate envelope db = record {
  outcome = outcome;
  gate = gate;
  envelope = envelope;
  db = db;
}

abbrev pub rerequest_payload : String → Run → Fields
rerequest_payload gate r = field "gate" (string gate) (field "run_id" (string r.run_id) end)

-- A WAIT_USER result for a declared gate: blocked where the gate was approved before.
unfoldable pub wait_for : Env → Run → String → Fields → Outcome → Db → Result Verdict
unfolding gate_is_approved blocked_payload put get event
wait_for env r gate envelope o db =
    if gate_is_approved r.job_id gate db
    then (do
      payload ← blocked_payload gate o.payload
      ok (
          verdict blocked null (with_payload payload envelope)
            (event env.now "job" r.job_id "GATE_REREQUEST_BLOCKED" (rerequest_payload gate r) db)))
    else ok (verdict wait_user (string gate) envelope db)

abbrev pub bad_gate : Result Verdict
bad_gate = err (controller_error "WAIT_USER result requires a declared human gate")

unfoldable pub check_wait : Env → Run → Value → Value → Fields → Outcome → Db → Result Verdict
unfolding contains wait_for
check_wait env r (string gate) declared envelope o db = do
  known ← contains gate declared
  if known then wait_for env r gate envelope o db else bad_gate
check_wait env r v declared envelope o db = bad_gate

abbrev pub no_gate : Value → Verdict → Result Verdict
no_gate null v = ok v
no_gate g v = err (controller_error "non-WAIT_USER result cannot carry a human gate")

unfoldable pub settle : Env → Run → Fields → Fields → Outcome → Db → Result Verdict
unfolding check_wait get_or
settle env r task envelope o db = elim o.status [
  | wait_user ↦
      check_wait env r (get_or "gate" null o.payload) (get_or "human_gates" (array nil) task)
        envelope o db
  | s ↦ no_gate (get_or "gate" null o.payload) (verdict s null envelope db)
]

abbrev pub end_run : State → Fields → Run → Run
end_run outcome envelope r = record r { state = outcome; result = some envelope }

abbrev pub end_job : State → Job → Job
end_job outcome j = record j { state = outcome; active_run_id = none }

-- UPDATE runs SET state=?, result_json=? WHERE run_id=?
-- UPDATE jobs SET state=?, active_run_id=NULL WHERE job_id=?
unfoldable pub store_result : Run → Verdict → Db
unfolding update
store_result r v = record v.db {
  runs = update run_key r.run_id (end_run v.outcome v.envelope) v.db.runs;
  jobs = update job_key r.job_id (end_job v.outcome) v.db.jobs;
}

abbrev pub waiting_event : Env → Run → Verdict → State → Db → Db
waiting_event env r v wait_user db =
    event env.now "job" r.job_id "GATE_WAITING"
      (field "gate" v.gate (field "run_id" (string r.run_id) end)) db
waiting_event env r v s db = db

unfoldable pub log_result : Env → Run → Value → Verdict → Db → Db
unfolding event
log_result env r engine v db = waiting_event env r v v.outcome (
    event env.now "run" r.run_id "RESULT_INGESTED"
      (field "outcome" (string (state_name v.outcome))
        (field "gate" v.gate (field "engine" engine end)))
      db)

-- A result that is new: it must come from the active attempt of its job.
unfoldable pub ingest_new : Env → Fields → Outcome → Option Run → Db → Result Db
unfolding open_run active_job check_engine settle store_result log_result
ingest_new env envelope o found db = do
  r ← open_run envelope found
  j ← active_job r db
  engine ← check_engine j.task envelope
  v ← settle env r j.task envelope o db
  ok (log_result env r engine v (store_result r v))

unfoldable pub ingest_result : Env → Fields → Db → Result Db
unfolding validate_envelope find is_replay ingest_new get
ingest_result env envelope db = validate_envelope env.sha256 envelope >>= λ o.
    let found = find_run (get "run_id" envelope) db.runs in
    if is_replay envelope found then ok db else ingest_new env envelope o found db
