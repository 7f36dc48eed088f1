-- ===== src/Api/Post.antt =====
-- `_do_POST` of api.py.
use dvk_claude.Common.{
  String, Bool, true, false, ◌||◌, Option, none, some, ◌==◌, is_empty, if◌then◌else◌,
}
use dvk_claude.Common.Dict.{lookup}
use dvk_claude.Json.{Value, null, string, array, object, Fields, index, get_or}
use dvk_claude.Result.{stale_result, type_error, Result, ok, err, ◌>>=◌}
use dvk_claude.Controller.Schema.{Decision, approved, rejected, GateDecision, Db, Env}
use dvk_claude.Controller.Workers.{
  register_worker, provision_worker_token, authenticate_worker, heartbeat_worker,
}
use dvk_claude.Controller.Claim.{claim}
use dvk_claude.Controller.Leases.{heartbeat_run}
use dvk_claude.Controller.Results.{ingest_result}
use dvk_claude.Controller.Gates.{resolve_gate}
use dvk_claude.Api.{
  Server, Request, enrolled, decided, received, claimed, renewed, ingested, not_found, replies,
  crashes, token, compare_digest, bound, worker_auth, operator_auth, denied, Outcome, unchanged,
  error_answer, finish, finish_db, when,
}

-- `enrollment_tokens.get(worker_id, "")`: a container is no key.
unfoldable pub enrollment_token : Server → Value → Result String
unfolding lookup
enrollment_token srv (string id) =
    ok (elim (lookup id srv.enrollment_tokens) [ none ↦ "" | some t ↦ t ])
enrollment_token srv (array vs) = err type_error
enrollment_token srv (object fs) = err type_error
enrollment_token srv v = ok ""

-- `bool(expected and hmac.compare_digest(expected, self._token()))`
unfoldable pub is_bootstrap : String → Request → Result Bool
unfolding compare_digest token
is_bootstrap expected r = if is_empty expected then ok false else compare_digest expected (token r)

unfoldable pub register : Env → Fields → Db → Outcome
unfolding register_worker finish
register env body db = finish enrolled db (register_worker env body db)

-- Provision, then register: each is a transaction of its own.
unfoldable pub bootstrap : Env → Env → Value → Request → Fields → Db → Outcome
unfolding error_answer register token
bootstrap first later (string id) r body db = elim (provision_worker_token first id (token r) db) [
  | ok new ↦ register later body new
  | err e ↦ unchanged db (error_answer e)
]
bootstrap first later v r body db = unchanged db (crashes type_error)

-- Who the credential is good for: a worker that is enrolled, and a worker that may enrol.
unfoldable pub enrol_auth : Env → Server → Request → Value → Db → Result (Bool × Bool)
unfolding enrollment_token worker_auth is_bootstrap
enrol_auth env srv r worker_id db = do
  expected ← enrollment_token srv worker_id
  known ← worker_auth env srv r worker_id db
  may_enrol ← is_bootstrap expected r
  ok (known, may_enrol)

-- `POST /v1/workers/enrol`
unfoldable pub enrol : Env → Env → Server → Request → Fields → Db → Outcome
unfolding enrol_auth error_answer register bootstrap get_or
enrol first later srv r body db =
    let worker_id = get_or "worker_id" (string "") body in
    elim (enrol_auth first srv r worker_id db) [
      | ok (true, may_enrol) ↦ register later body db
      | ok (false, true) ↦ bootstrap first later worker_id r body db
      | ok (false, false) ↦ unchanged db denied
      | err e ↦ unchanged db (error_answer e)
    ]

abbrev pub decision_of : String → Decision
decision_of path = if path == "/v1/gates/approve" then approved else rejected

unfoldable pub resolve : Env → Decision → Fields → Db → Result (GateDecision × Db)
unfolding resolve_gate index get_or
resolve env decision body db = do
  job_id ← index "job_id" body
  gate ← index "gate" body
  source ← index "source_run_id" body
  actor ← index "actor" body
  resolve_gate env job_id gate decision source actor (get_or "note" null body) db

-- No lease is found under NULL.
unfoldable pub renew_bound : Env → Option String → Option String → Option String → Db → Result Db
unfolding heartbeat_run
renew_bound env (some run_id) (some lease_id) (some lease_token) db =
    heartbeat_run env run_id lease_id lease_token db
renew_bound env run_id lease_id lease_token db = err (stale_result "lease is not active")

unfoldable pub renew : Env → Server → Fields → Db → Result Db
unfolding bound renew_bound index
renew env srv body db = do
  run_id ← index "run_id" body
  lease_id ← index "lease_id" body
  lease_token ← index "lease_token" body
  r ← bound srv run_id
  l ← bound srv lease_id
  t ← bound srv lease_token
  renew_bound env r l t db

-- The paths of a worker whose credential was accepted.
unfoldable pub post_worker : Env → Server → String → String → Fields → Db → Outcome
unfolding heartbeat_worker claim renew ingest_result finish finish_db
post_worker env srv path worker_id body db =
    if path == "/v1/workers/heartbeat"
    then finish_db received db (heartbeat_worker env worker_id db)
    else if path == "/v1/jobs/claim"
    then finish claimed db (claim env worker_id db)
    else if path == "/v1/runs/heartbeat"
    then finish_db renewed db (renew env srv body db)
    else if path == "/v1/runs/result"
    then finish_db ingested db (ingest_result env body db)
    else unchanged db (replies 404 not_found)

-- `_worker_auth(worker_id)`, and the rest for the worker.
abbrev pub as_named : Env → Server → Request → Fields → Db → Result (Option String) → Outcome
as_named env srv r body db (err e) = unchanged db (error_answer e)
as_named env srv r body db (ok none) = unchanged db denied
as_named env srv r body db (ok (some id)) =
    when db (authenticate_worker env id (token r) db) (post_worker env srv r.path id body db)

unfoldable pub as_worker : Env → Server → Request → Fields → Db → Outcome
unfolding bound authenticate_worker token error_answer post_worker get_or
as_worker env srv r body db =
    as_named env srv r body db (bound srv (get_or "worker_id" (string "") body))

abbrev pub is_gate_path : String → Bool
is_gate_path path = path == "/v1/gates/approve" || path == "/v1/gates/reject"

-- `_do_POST`
unfoldable pub do_post : Env → Env → Server → Request → Fields → Db → Outcome
unfolding enrol operator_auth resolve finish when as_worker
do_post first later srv r body db =
    if r.path == "/v1/workers/enrol"
    then enrol first later srv r body db
    else if is_gate_path r.path
    then when db (operator_auth srv r)
        (finish decided db (resolve later (decision_of r.path) body db))
    else as_worker later srv r body db
