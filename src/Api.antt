-- ===== src/Api.antt =====
-- `ControllerRequestHandler` of api.py: requests, answers, credentials and the handlers of exceptions.
-- A request is served alone, under the server's lock.
pub mod Get
pub mod Post
pub mod Body
pub mod Calls
pub mod Tests
use dvk_claude.Common.{
  ℕ, String, Bool, true, false, not, ◌&&◌, ◌||◌, Option, none, some, List, [], ◌∷◌, ◌==◌, leb,
  codes, all, starts_with, is_empty, is_some, if◌then◌else◌,
}
use dvk_claude.Github.{without_prefix}
use dvk_claude.Common.Dict.{lookup}
use dvk_claude.Json.{
  ℤ, Value, null, boolean, integer, string, array, object, pos, Fields, index, get_or,
}
use dvk_claude.Result.{
  Error, controller_error, stale_result, gate_conflict, value_error, key_error, type_error, Result,
  ok, err, ◌>>=◌,
}
use dvk_claude.Controller.Schema.{State, Decision, approved, rejected, GateDecision, Db, Env}
use dvk_claude.Controller.Workers.{
  register_worker, provision_worker_token, authenticate_worker, heartbeat_worker, WorkerStatus,
  worker_status,
}
use dvk_claude.Controller.Claim.{Claim, claim}
use dvk_claude.Controller.Leases.{heartbeat_run}
use dvk_claude.Controller.Results.{ingest_result}
use dvk_claude.Controller.Gates.{resolve_gate}
use dvk_claude.Controller.Views.{
  Status, GateSummary, status, gate_history, PendingGate, pending_gates,
}

-- `number_text` is the text as which SQLite compares a number with a column of type TEXT.
pub record Server : Type 0 where
  pub enrollment_tokens : List (String × String)
  pub operator_token : Option String
  pub number_text : ℤ → String

-- The request line and the headers that are read.
pub record Request : Type 0 where
  pub path : String
  pub authorization : Option String
  pub worker_header : Option String

pub data Payload : Type 0 where
  healthy : Payload
  gates : List PendingGate → Payload
  gate_status : String → State → GateSummary → List GateDecision → Payload
  job_status : Status → Payload
  worker_state : WorkerStatus → Payload
  enrolled : String → Payload
  decided : GateDecision → Payload
  received : Payload
  claimed : Option Claim → Payload
  renewed : Payload
  ingested : Payload
  unauthorized : Payload
  not_found : Payload
  raised : Error → Payload

-- An exception that the handler does not catch closes the connection without a reply.
pub data Answer : Type 0 where
  replies : ℕ → Payload → Answer
  crashes : Error → Answer

-- `_token`
unfoldable pub token : Request → String
unfolding without_prefix
token r = elim r.authorization [
  | none ↦ ""
  | some value ↦ elim (without_prefix "Bearer " value) [ none ↦ "" | some t ↦ t ]
]

abbrev is_ascii : String → Bool
is_ascii s = all (λ c. leb c 127) (codes s)

-- `hmac.compare_digest` of two texts, which takes ASCII alone.
unfoldable pub compare_digest : String → String → Result Bool
unfolding all
compare_digest a b = if is_ascii a && is_ascii b then ok (a == b) else err type_error

-- A value that is bound to a column of type TEXT: `none` is NULL, and containers are not supported.
unfoldable pub bound : Server → Value → Result (Option String)
bound srv null = ok none
bound srv (boolean b) = ok (some (srv.number_text (pos (if b then 1 else 0))))
bound srv (integer n) = ok (some (srv.number_text n))
bound srv (string s) = ok (some s)
bound srv (array vs) = err type_error
bound srv (object fs) = err type_error

-- `_worker_auth`: no credential has the identifier NULL.
unfoldable pub worker_auth : Env → Server → Request → Value → Db → Result Bool
unfolding bound authenticate_worker token
worker_auth env srv r worker_id db = bound srv worker_id >>= λ id. elim id [
  | none ↦ ok false
  | some i ↦ authenticate_worker env i (token r) db
]

-- `_operator_auth`
unfoldable pub operator_auth : Server → Request → Result Bool
unfolding compare_digest token
operator_auth srv r = elim srv.operator_token [
  | none ↦ ok false
  | some expected ↦ if is_empty expected then ok false else compare_digest expected (token r)
]

-- `except ControllerError as exc: self._reply(404, ...)`
unfoldable pub get_answer : Result Answer → Answer
get_answer (ok a) = a
get_answer (err (controller_error m)) = replies 404 (raised (controller_error m))
get_answer (err (stale_result m)) = replies 404 (raised (stale_result m))
get_answer (err (gate_conflict m)) = replies 404 (raised (gate_conflict m))
get_answer (err e) = crashes e

abbrev pub denied : Answer
denied = replies 401 unauthorized

abbrev pub guarded : Bool → Result Answer → Result Answer
guarded true answer = answer
guarded false answer = ok denied

-- What a POST answers, and the database behind it.
pub record Outcome : Type 0 where
  pub answer : Answer
  pub db : Db

abbrev pub unchanged : Db → Answer → Outcome
unchanged db a = record { answer = a; db = db }

-- The two `except` clauses of `_do_POST`.
unfoldable pub error_answer : Error → Answer
error_answer (gate_conflict m) = replies 409 (raised (gate_conflict m))
error_answer (stale_result m) = replies 409 (raised (stale_result m))
error_answer (controller_error m) = replies 400 (raised (controller_error m))
error_answer (value_error m) = replies 400 (raised (value_error m))
error_answer key_error = replies 400 (raised key_error)
error_answer e = crashes e

-- A call of the controller that raises leaves the database as it was.
unfoldable pub finish {ℓ} : {A : Type ℓ} → (A → Payload) → Db → Result (A × Db) → Outcome
unfolding error_answer
finish show db (ok (a, new)) = record { answer = replies 200 (show a); db = new }
finish show db (err e) = unchanged db (error_answer e)

unfoldable pub finish_db : Payload → Db → Result Db → Outcome
unfolding error_answer
finish_db shown db (ok new) = record { answer = replies 200 shown; db = new }
finish_db shown db (err e) = unchanged db (error_answer e)

-- The rest of a handler behind a test that may raise.
unfoldable pub when : Db → Result Bool → Outcome → Outcome
unfolding error_answer
when db (ok true) rest = rest
when db (ok false) rest = unchanged db denied
when db (err e) rest = unchanged db (error_answer e)
