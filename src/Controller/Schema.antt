-- ===== src/Controller/Schema.antt =====
-- `_create_schema` and `_event` of controller.py: the tables, and the values of their columns.
-- A column that holds JSON text holds the value that the text stands for.
use dvk_claude.Common.{ℕ, suc, String, Bool, true, false, Option, List, [], ◌∷◌, ◌++◌, length}
use dvk_claude.Json.{Fields}

-- The states of jobs and of runs. A result writes its status to both.
pub data State : Type 0 where
  queued running done wait_user blocked failed needs_reconciliation cancelled stale : State

abbrev pub is_queued : State → Bool
is_queued queued = true
is_queued s = false

abbrev pub is_running : State → Bool
is_running running = true
is_running s = false

abbrev pub is_done : State → Bool
is_done done = true
is_done s = false

abbrev pub is_waiting : State → Bool
is_waiting wait_user = true
is_waiting s = false

-- `RESULT_STATUSES`
abbrev pub is_terminal : State → Bool
is_terminal done = true
is_terminal wait_user = true
is_terminal blocked = true
is_terminal failed = true
is_terminal s = false

abbrev pub state_name : State → String
state_name queued = "QUEUED"
state_name running = "RUNNING"
state_name done = "DONE"
state_name wait_user = "WAIT_USER"
state_name blocked = "BLOCKED"
state_name failed = "FAILED"
state_name needs_reconciliation = "NEEDS_RECONCILIATION"
state_name cancelled = "CANCELLED"
state_name stale = "STALE"

pub record Worker : Type 0 where
  pub worker_id : String
  pub descriptor : Fields
  pub registered_at : ℕ
  pub last_heartbeat_at : ℕ

-- The text `algorithm$rounds$salt$digest`, in its parts; no part holds a `$`.
pub record TokenHash : Type 0 where
  pub algorithm : String
  pub rounds : ℕ
  pub salt : String
  pub digest : String

pub record Credential : Type 0 where
  pub worker_id : String
  pub token_hash : TokenHash
  pub created_at : ℕ

pub record Job : Type 0 where
  pub job_id : String
  pub task : Fields
  pub state : State
  pub attempt : ℕ
  pub active_run_id : Option String
  pub idempotency_key : Option String
  pub idempotent : Bool
  pub dependency_job_id : Option String
  pub created_at : ℕ

pub record Run : Type 0 where
  pub run_id : String
  pub job_id : String
  pub worker_id : String
  pub attempt : ℕ
  pub lease_id : String
  pub lease_token : String
  pub state : State
  pub claimed_at : ℕ
  pub lease_expires_at : ℕ
  pub result : Option Fields

pub record Event : Type 0 where
  pub event_id : ℕ
  pub occurred_at : ℕ
  pub entity_type : String
  pub entity_id : String
  pub event_type : String
  pub payload : Fields

pub record Project : Type 0 where
  pub project_id : String
  pub manifest : Fields
  pub registered_at : ℕ
  pub updated_at : ℕ

pub data Decision : Type 0 where
  approved rejected : Decision

-- A row of `gate_decisions`, whose primary key is (job_id, gate).
pub record GateDecision : Type 0 where
  pub job_id : String
  pub gate : String
  pub decision : Decision
  pub actor : String
  pub note : Option String
  pub decided_at : ℕ
  pub source_run_id : String
  pub disposition : State

pub record Db : Type 0 where
  pub workers : List Worker
  pub credentials : List Credential
  pub jobs : List Job
  pub runs : List Run
  pub events : List Event
  pub projects : List Project
  pub gate_decisions : List GateDecision

abbrev pub empty : Db
empty = record {
  workers = [];
  credentials = [];
  jobs = [];
  runs = [];
  events = [];
  projects = [];
  gate_decisions = [];
}

-- What one call takes from outside the database: the clock's reading, what `uuid4` and `secrets`
-- draw, and the digests of `hashlib`. A call reads the clock once.
pub record Env : Type 0 where
  pub now : ℕ
  pub job_id : String
  pub run_id : String
  pub lease_id : String
  pub lease_token : String
  pub salt : String
  pub sha256 : String → String
  -- the token, the rounds and the salt
  pub pbkdf2 : String → ℕ → String → String

-- The primary keys.
abbrev pub worker_key : Worker → String
worker_key w = w.worker_id

abbrev pub credential_key : Credential → String
credential_key c = c.worker_id

abbrev pub job_key : Job → String
job_key j = j.job_id

abbrev pub run_key : Run → String
run_key r = r.run_id

abbrev pub project_key : Project → String
project_key p = p.project_id

-- `_event`
unfoldable pub event : ℕ → String → String → String → Fields → Db → Db
event now entity_type entity_id event_type payload db = record db { events = db.events ++ row ∷ [] }
  where
    row : Event
    row = record {
      event_id = suc (length db.events);
      occurred_at = now;
      entity_type = entity_type;
      entity_id = entity_id;
      event_type = event_type;
      payload = payload;
    }
