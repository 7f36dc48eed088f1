-- ===== src/Api/Get.antt =====
-- `_do_GET` of api.py.
use dvk_claude.Common.{String, none, some, ◌==◌, if◌then◌else◌}
use dvk_claude.Github.{without_prefix}
use dvk_claude.Json.{Value, string}
use dvk_claude.Result.{Result, ok, ◌>>=◌}
use dvk_claude.Controller.Schema.{Db, Env}
use dvk_claude.Controller.Workers.{worker_status}
use dvk_claude.Controller.Views.{status, gate_history, pending_gates}
use dvk_claude.Api.{
  Server, Request, healthy, gates, gate_status, job_status, worker_state, not_found, Answer,
  replies, worker_auth, operator_auth, get_answer, guarded,
}

-- `GET /v1/gates/<job>`
unfoldable pub get_gate : Env → String → Db → Result Answer
unfolding status gate_history
get_gate env job_id db = do
  s ← status env job_id db
  decisions ← gate_history job_id db
  ok (replies 200 (gate_status job_id s.state s.gate decisions))

abbrev worker_name : Request → Value
worker_name r = string (elim r.worker_header [ none ↦ "" | some id ↦ id ])

-- The paths below a prefix: the gates of a job, a job, a worker.
unfoldable pub get_named : Env → Server → Request → Db → Result Answer
unfolding without_prefix operator_auth worker_auth get_gate status worker_status
get_named env srv r db = elim (without_prefix "/v1/gates/" r.path) [
  | some job_id ↦ operator_auth srv r >>= λ may. guarded may (get_gate env job_id db)
  | none ↦ elim (without_prefix "/v1/jobs/" r.path) [
    | some job_id ↦ worker_auth env srv r (worker_name r) db >>= λ may.
        guarded may (status env job_id db >>= λ s. ok (replies 200 (job_status s)))
    | none ↦ elim (without_prefix "/v1/workers/" r.path) [
      | some id ↦ worker_auth env srv r (string id) db >>= λ may.
          guarded may (worker_status env id db >>= λ w. ok (replies 200 (worker_state w)))
      | none ↦ ok (replies 404 not_found)
    ]
  ]
]

abbrev pending_answer : Env → Db → Result Answer
pending_answer env db = pending_gates db >>= λ gs. ok (replies 200 (gates gs))

-- `_do_GET`
unfoldable pub do_get : Env → Server → Request → Db → Answer
unfolding get_answer operator_auth pending_gates get_named
do_get env srv r db =
    if r.path == "/health"
    then replies 200 healthy
    else get_answer (
        if r.path == "/v1/gates/pending"
        then (operator_auth srv r >>= λ may. guarded may (pending_answer env db))
        else get_named env srv r db)
