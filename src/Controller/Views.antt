-- ===== src/Controller/Views.antt =====
-- What the controller shows: `status`, `_latest_terminal_result`, `events`, `gate_history`,
-- `pending_gates` and `_gate_summary` of controller.py.
use dvk_claude.Common.{
  ℕ, String, Bool, true, false, not, ◌&&◌, Option, none, some, List, [], ◌∷◌, ◌==◌, is_empty,
  is_some, keep, sort, ltb, map, if◌then◌else◌,
}
use dvk_claude.Result.{Result, ok, err, controller_error, type_error, ◌>>=◌}
use dvk_claude.Json.{Value, null, string, array, object, nil, Fields, end, field, get_or, index}
use dvk_claude.Table.{find}
use dvk_claude.Controller.Schema.{
  State, is_waiting, is_terminal, Job, Run, Event, GateDecision, Db, Env, job_key,
}
use dvk_claude.Controller.Validate.Envelope.{
  Outcome, validate_envelope, result_payload, task_engine,
}
use dvk_claude.Controller.Claim.{is_approval, earlier_decision, queued_before}
use dvk_claude.Controller.Gates.{latest, is_waiting_run, current_waiting_gate}

-- A run that ended with a result.
abbrev pub has_ended : String → Run → Bool
has_ended job_id r = r.job_id == job_id && is_terminal r.state && is_some r.result

-- The result, the artifacts and the hashes that are shown.
pub record Shown : Type 0 where
  pub result : Option Fields
  pub artifacts : Value
  pub hashes : Value

abbrev nothing : Shown
nothing = record { result = none; artifacts = array nil; hashes = object end }

-- The payload without any further field.
unfoldable pub contract_fields : List String → Fields → Fields
unfolding get_or
contract_fields [] payload = end
contract_fields (k ∷ ks) payload = field k (get_or k null payload) (contract_fields ks payload)

abbrev pub result_fields : List String
result_fields = "status" ∷ "summary" ∷ "gate" ∷ "completed" ∷ "remaining" ∷ "evidence" ∷ []

abbrev shown_of : Fields → Result Outcome → Shown
shown_of envelope (err e) = nothing
shown_of envelope (ok o) = record {
  result = some (contract_fields result_fields o.payload);
  artifacts = get_or "artifacts" (array nil) envelope;
  hashes = get_or "hashes" (object end) envelope;
}

abbrev shown_run : Env → Option Run → Shown
shown_run env none = nothing
shown_run env (some r) = elim r.result [
  | none ↦ nothing
  | some envelope ↦ shown_of envelope (validate_envelope env.sha256 envelope)
]

-- `_latest_terminal_result`
unfoldable pub latest_terminal_result : Env → String → Db → Shown
unfolding latest validate_envelope contract_fields get_or
latest_terminal_result env job_id db = shown_run env (latest (has_ended job_id) db.runs)

pub record GateSummary : Type 0 where
  pub waiting_for : Option String
  pub approved : List String
  pub rejected : List String

abbrev gates_of : List GateDecision → List String
gates_of = map (λ d. d.gate)

-- `_gate_summary`
unfoldable pub gate_summary : String → State → Db → Result GateSummary
unfolding keep sort current_waiting_gate
gate_summary job_id state db = do
  waiting_for ← waiting (is_waiting state)
  ok (record {
    waiting_for = waiting_for;
    approved = gates_of (keep is_approval rows);
    rejected = gates_of (keep (λ d. not (is_approval d)) rows);
  })
  where
    rows : List GateDecision
    rows = sort earlier_decision (keep (λ d. d.job_id == job_id) db.gate_decisions)

    waiting : Bool → Result (Option String)
    waiting false = ok none
    waiting true = do current ← current_waiting_gate job_id db; ok current.gate

-- The columns of a run that `status` selects.
pub record RunRow : Type 0 where
  pub run_id : String
  pub attempt : ℕ
  pub worker_id : String
  pub state : State
  pub lease_expires_at : ℕ

abbrev row_of : Run → RunRow
row_of r = record {
  run_id = r.run_id;
  attempt = r.attempt;
  worker_id = r.worker_id;
  state = r.state;
  lease_expires_at = r.lease_expires_at;
}

pub record Status : Type 0 where
  pub project : Value
  pub engine : Value
  pub engine_selection : Value
  pub state : State
  pub attempt : ℕ
  pub active_run_id : Option String
  pub runs : List RunRow
  pub shown : Shown
  pub gate : GateSummary

unfoldable pub status : Env → String → Db → Result Status
unfolding find keep sort task_engine latest_terminal_result gate_summary index get_or
status env job_id db = elim (find job_key job_id db.jobs) [
  | none ↦ err (controller_error "unknown job")
  | some job ↦ shown job
]
  where
    runs : List RunRow
    runs =
        map row_of (sort (λ a b. ltb a.attempt b.attempt) (keep (λ r. r.job_id == job_id) db.runs))

    shown : Job → Result Status
    shown job = do
      project ← index "project" job.task
      engine ← task_engine job.task
      gate ← gate_summary job_id job.state db
      ok (record {
        project = project;
        engine = engine;
        engine_selection = get_or "engine_selection" null job.task;
        state = job.state;
        attempt = job.attempt;
        active_run_id = job.active_run_id;
        runs = runs;
        shown = latest_terminal_result env job_id db;
        gate = gate;
      })

abbrev pub events : Db → List Event
events db = db.events

unfoldable pub gate_history : String → Db → Result (List GateDecision)
unfolding find keep sort
gate_history job_id db =
    if is_some (find job_key job_id db.jobs)
    then ok (sort earlier_decision (keep (λ d. d.job_id == job_id) db.gate_decisions))
    else err (controller_error "unknown job")

pub record PendingGate : Type 0 where
  pub job_id : String
  pub project : Value
  pub gate : String
  pub source_run_id : String
  pub attempt : ℕ
  pub summary : Value

abbrev bad_stored {ℓ} : {A : Type ℓ} → Result A
bad_stored = err (controller_error "stored WAIT_USER result is invalid")

abbrev pending_payload : Job → Run → Fields → Result PendingGate
pending_payload j r payload = elim (get_or "gate" null payload) [
  | string gate ↦
      if is_waiting_status (get_or "status" null payload) && not (is_empty gate)
      then ok (record {
        job_id = j.job_id;
        project = get_or "project" null j.task;
        gate = gate;
        source_run_id = r.run_id;
        attempt = r.attempt;
        summary = get_or "summary" null payload;
      })
      else bad_stored
  | v ↦ bad_stored
]
  where
    is_waiting_status : Value → Bool
    is_waiting_status (string s) = s == "WAIT_USER"
    is_waiting_status v = false

abbrev pending_result : Job → Run → Result Value → Result PendingGate
pending_result j r (ok (object payload)) = pending_payload j r payload
pending_result j r (ok v) = err type_error
pending_result j r (err e) = bad_stored

-- The join of a waiting job with its latest waiting run; a job without one is not listed.
unfoldable pub pending_each : Db → List Job → Result (List PendingGate)
unfolding latest result_payload get_or
pending_each db [] = ok []
pending_each db (j ∷ js) =
    let rest = pending_each db js in
    elim (latest (is_waiting_run j.job_id) db.runs) [
      | none ↦ rest
      | some r ↦ elim r.result [
        | none ↦ rest
        | some envelope ↦
            pending_result j r (result_payload envelope) >>= λ p. rest >>= λ ps. ok (p ∷ ps)
      ]
    ]

unfoldable pub pending_gates : Db → Result (List PendingGate)
unfolding pending_each keep sort queued_before
pending_gates db = pending_each db (sort queued_before (keep (λ j. is_waiting j.state) db.jobs))
