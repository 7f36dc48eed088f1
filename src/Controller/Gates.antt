-- ===== src/Controller/Gates.antt =====
-- `_resolve_gate` and what it reads, of controller.py. `approve_gate` and `reject_gate` are its two
-- decisions. The operation is a transaction, rolled back when it raises.
use dvk_claude.Common.{
  String, Bool, true, false, not, ◌&&◌, ◌||◌, Option, none, some, List, [], ◌∷◌, ◌++◌, ◌==◌, ◌=?◌,
  ltb, any, first, codes, is_empty, strip, length, if◌then◌else◌,
}
use dvk_claude.Result.{
  Result, ok, err, controller_error, gate_conflict, type_error, ◌>>=◌, ◌>>◌, raise_if,
}
use dvk_claude.Json.{
  Value, null, string, array, object, nil, Fields, end, field, get_or, contains, text?,
}
use dvk_claude.Table.{find, update}
use dvk_claude.Controller.Schema.{
  State, queued, needs_reconciliation, cancelled, is_waiting, state_name, Job, Run, Decision,
  approved, rejected, GateDecision, Db, Env, job_key, event,
}
use dvk_claude.Controller.Validate.Envelope.{result_payload}

abbrev decision_name : Decision → String
decision_name approved = "APPROVED"
decision_name rejected = "REJECTED"

abbrev pub decision_eq : Decision → Decision → Bool
decision_eq approved approved = true
decision_eq rejected rejected = true
decision_eq _ _ = false

abbrev pub required_text : Value → Result String
required_text (string s) =
    if is_empty s then err (controller_error "job_id and gate are required") else ok s
required_text v = err (controller_error "job_id and gate are required")

unfoldable pub check_actor : Value → Result String
unfolding strip any
check_actor (string s) =
    if is_empty (strip s)
      || ltb 128 (length (codes (strip s)))
      || any (λ c. ltb c 32) (codes (strip s))
    then err (controller_error "invalid gate actor")
    else ok (strip s)
check_actor v = err (controller_error "invalid gate actor")

unfoldable pub check_note : Value → Result (Option String)
unfolding any
check_note null = ok none
check_note (string s) =
    if ltb 2000 (length (codes s)) || any (λ c. c =? 0) (codes s)
    then err (controller_error "invalid gate note")
    else ok (some s)
check_note v = err (controller_error "invalid gate note")

-- SELECT ... FROM gate_decisions WHERE job_id=? AND gate=?
unfoldable pub find_decision : String → String → List GateDecision → Option GateDecision
unfolding first
find_decision job_id gate = first (λ d. d.job_id == job_id && d.gate == gate)

-- A run of the job that waits for the user and has a result.
abbrev pub is_waiting_run : String → Run → Bool
is_waiting_run job_id r =
    r.job_id == job_id && is_waiting r.state && elim r.result [ none ↦ false | some v ↦ true ]

abbrev newer : Run → Option Run → Option Run
newer r none = some r
newer r (some s) = if ltb r.attempt s.attempt then some s else some r

-- ... ORDER BY attempt DESC LIMIT 1
unfoldable pub latest : (Run → Bool) → List Run → Option Run
latest p [] = none
latest p (r ∷ rs) = let rest = latest p rs in if p r then newer r rest else rest

pub record WaitingGate : Type 0 where
  pub gate : Option String
  pub source_run_id : Option String

abbrev pub invalid_stored {ℓ} : {A : Type ℓ} → Result A
invalid_stored = err (controller_error "stored WAIT_USER result is invalid")

abbrev pub stored_gate : Result Value → Result (Option String)
stored_gate (ok (object payload)) = ok (text? (get_or "gate" null payload))
stored_gate (ok v) = err type_error
stored_gate (err e) = invalid_stored

-- `_current_waiting_gate`
unfoldable pub current_waiting_gate : String → Db → Result WaitingGate
unfolding latest result_payload get_or
current_waiting_gate job_id db = elim (latest (is_waiting_run job_id) db.runs) [
  | none ↦ ok (record { gate = none; source_run_id = none })
  | some r ↦ elim r.result [
    | none ↦ invalid_stored
    | some envelope ↦ stored_gate (result_payload envelope) >>= λ g.
        ok (record { gate = g; source_run_id = some r.run_id })
  ]
]

-- `source_run_id is not None and source_run_id != s`
abbrev pub names_other : Value → String → Bool
names_other null s = false
names_other (string t) s = not (t == s)
names_other v s = true

-- A gate that was resolved before: the same decision is answered again.
unfoldable pub repeat_decision : GateDecision → Decision → Value → Db → Result (GateDecision × Db)
repeat_decision d decision source db = do
  raise_if (names_other source d.source_run_id)
      (gate_conflict "source_run_id does not match the resolved gate")
  raise_if (not (decision_eq d.decision decision)) (gate_conflict "gate already resolved")
  ok (d, db)

abbrev pub text_eq? : Option String → String → Bool
text_eq? none s = false
text_eq? (some t) s = t == s

abbrev pub matching_run : Value → Option String → Result String
matching_run source none = err (gate_conflict "gate is not the current waiting gate")
matching_run source (some run_id) =
    if names_other source run_id
    then err (gate_conflict "source_run_id does not match the current waiting run")
    else ok run_id

-- The run whose gate is to be resolved.
unfoldable pub waiting_source : Job → String → Value → Db → Result String
unfolding contains current_waiting_gate get_or
waiting_source job gate source db = do
  raise_if (not (is_waiting job.state)) (gate_conflict "job is not waiting for a human gate")
  declared ← contains gate (get_or "human_gates" (array nil) job.task)
  raise_if (not declared) (controller_error "gate is not declared by the task")
  current ← current_waiting_gate job.job_id db
  raise_if (not (text_eq? current.gate gate)) (gate_conflict "gate is not the current waiting gate")
  matching_run source current.source_run_id

abbrev pub disposition_of : Decision → Bool → State
disposition_of approved idempotent = if idempotent then queued else needs_reconciliation
disposition_of rejected idempotent = cancelled

-- UPDATE jobs SET state=?, active_run_id=NULL WHERE job_id=? AND state='WAIT_USER'
unfoldable pub resolve_job : State → Job → Job
resolve_job target j =
    if is_waiting j.state then record j { state = target; active_run_id = none } else j

abbrev resumed_event : State → String
resumed_event queued = "JOB_RESUMED"
resumed_event cancelled = "JOB_CANCELLED"
resumed_event s = "JOB_NEEDS_RECONCILIATION"

unfoldable pub log_decision : Env → GateDecision → Db → Db
unfolding event
log_decision env d db = event env.now "job" d.job_id (resumed_event d.disposition) gate_only decided
  where
    gate_only : Fields
    gate_only = field "gate" (string d.gate) end

    decided : Db
    decided =
        event env.now "job" d.job_id
          (elim d.decision [ approved ↦ "GATE_APPROVED" | rejected ↦ "GATE_REJECTED" ])
          (field "gate" (string d.gate) (
            field "actor" (string d.actor) (
              field "source_run_id" (string d.source_run_id)
                (field "disposition" (string (state_name d.disposition)) end))))
          db

abbrev pub new_decision :
    Env → Job → String → Decision → String → Option String → String → GateDecision
new_decision env job gate decision actor note source = record {
  job_id = job.job_id;
  gate = gate;
  decision = decision;
  actor = actor;
  note = note;
  decided_at = env.now;
  source_run_id = source;
  disposition = disposition_of decision job.idempotent;
}

unfoldable pub record_decision : Env → GateDecision → Db → GateDecision × Db
unfolding update resolve_job log_decision
record_decision env d db = (d, log_decision env d written)
  where
    written : Db
    written = record db {
      gate_decisions = db.gate_decisions ++ d ∷ [];
      jobs = update job_key d.job_id (resolve_job d.disposition) db.jobs;
    }

unfoldable pub decide_gate :
    Env → Job → String → Decision → Value → String → Option String → Db → Result (GateDecision × Db)
unfolding find_decision repeat_decision waiting_source record_decision
decide_gate env job gate decision source actor note db =
    elim (find_decision job.job_id gate db.gate_decisions) [
      | some d ↦ repeat_decision d decision source db
      | none ↦ waiting_source job gate source db >>= λ run_id.
          ok (record_decision env (new_decision env job gate decision actor note run_id) db)
    ]

-- `_resolve_gate`
unfoldable pub resolve_gate :
    Env → Value → Value → Decision → Value → Value → Value → Db → Result (GateDecision × Db)
unfolding check_actor check_note find decide_gate
resolve_gate env job_id gate decision source actor note db = do
  id ← required_text job_id
  name ← required_text gate
  who ← check_actor actor
  why ← check_note note
  elim (find job_key id db.jobs) [
    | none ↦ err (controller_error "unknown job")
    | some job ↦ decide_gate env job name decision source who why db
  ]
