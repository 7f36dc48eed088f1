-- ===== src/Controller/Enqueue.antt =====
-- `enqueue` of controller.py. An operation that raises leaves the database as it was: the raise
-- stands before the first write, or the transaction is rolled back.
use dvk_claude.Common.{
  String, Bool, false, not, ◌&&◌, ◌||◌, Option, none, some, List, ◌==◌, is_empty, is_some, first,
  if◌then◌else◌,
}
use dvk_claude.Result.{
  Result, ok, err, controller_error, type_error, integrity_error, ◌>>=◌, ◌>>◌, raise_if,
  as_controller_error,
}
use dvk_claude.Json.{
  Value, null, string, array, nil, cons, Fields, end, field, get, get_or, contains, is_given,
}
use dvk_claude.Json.Equality.{value_eq}
use dvk_claude.Table.{find, insert}
use dvk_claude.Github.{parse_github_repository, github_task_repository}
use dvk_claude.Controller.Schema.{queued, Job, Db, Env, job_key, project_key, event}
use dvk_claude.Controller.Validate.{validate_task}
use dvk_claude.Controller.Validate.Envelope.{task_engine}

-- A value for a column of type TEXT: a text or NULL. SQLite would store a number or a Boolean as the text
-- of it; such keys and identifiers are left out, and raise here as lists and objects do.
unfoldable pub text_column : Option Value → Result (Option String)
text_column none = ok none
text_column (some null) = ok none
text_column (some (string s)) = ok (some s)
text_column (some v) = err type_error

-- SELECT job_id FROM jobs WHERE idempotency_key=?
unfoldable pub find_by_key : String → List Job → Option Job
unfolding first
find_by_key k = first (λ j. elim j.idempotency_key [ none ↦ false | some i ↦ i == k ])

abbrev has_key : Option String → List Job → Bool
has_key none jobs = false
has_key (some k) jobs = is_some (find_by_key k jobs)

abbrev lacks_parent : Option String → List Job → Bool
lacks_parent none jobs = false
lacks_parent (some p) jobs = not (is_some (find job_key p jobs))

-- INSERT INTO jobs: the unique idempotency key, the parent that must exist, the primary key.
unfoldable pub insert_job : Job → List Job → Result (List Job)
unfolding find_by_key find insert
insert_job job jobs =
    if has_key job.idempotency_key jobs || lacks_parent job.dependency_job_id jobs
    then err integrity_error
    else insert job_key job jobs

-- `project(project_id)["manifest"]`
unfoldable pub manifest_of : Option Value → Db → Result Fields
unfolding find
manifest_of (some (string project_id)) db = elim (find project_key project_id db.projects) [
  | none ↦ err (controller_error "unknown project")
  | some p ↦ ok p.manifest
]
manifest_of v db = err (controller_error "unknown project")

abbrev pub github_only : Value
github_only = array (cons (string "github_api") nil)

abbrev pub is_value : Value → Option Value → Bool
is_value v none = false
is_value v (some w) = value_eq v w

-- A github_api task must be allowed by its project and name the project's repository.
unfoldable pub check_project_repository : Fields → Db → Result (Unit {0})
unfolding manifest_of contains parse_github_repository github_task_repository get get_or
check_project_repository task db = do
  manifest ← manifest_of (get "project" task) db
  allowed ← contains "github_api" (get_or "allowed_integrations" (array nil) manifest)
  raise_if (not allowed) (controller_error "github_api integration is not allowed for project")
  canonical ← as_controller_error (parse_github_repository (get "repository" manifest))
  named ← github_task_repository task
  raise_if (not (named.0 == canonical.0 && named.1 == canonical.1))
      (controller_error "github_api repository does not match project manifest")

abbrev pub or_new : Option String → String → String
or_new none fresh = fresh
or_new (some s) fresh = if is_empty s then fresh else s

abbrev pub same_request : Option String → List Job → Option Job
same_request none jobs = none
same_request (some k) jobs = if is_empty k then none else find_by_key k jobs

abbrev pub enqueued_payload : Fields → Value → Fields
enqueued_payload task engine = field "task_type" (get_or "task_type" null task) (
    field "project" (get_or "project" null task)
      (field "engine" engine (field "engine_selection" (get_or "engine_selection" null task) end)))

abbrev pub new_job : Env → Fields → String → Option String → Option String → Job
new_job env task job_id key parent = record {
  job_id = job_id;
  task = task;
  state = queued;
  attempt = 0;
  active_run_id = none;
  idempotency_key = key;
  idempotent = is_given (get "idempotency_policy" task) "safe_retry";
  dependency_job_id = parent;
  created_at = env.now;
}

unfoldable pub enqueue_new : Env → Fields → Option String → Db → Result (String × Db)
unfolding text_column insert_job event task_engine get get_or
enqueue_new env task key db = do
  named ← text_column (get "job_id" task)
  parent ← text_column (get "depends_on" task)
  let job_id = or_new named env.job_id
  jobs ← insert_job (new_job env task job_id key parent) db.jobs
  engine ← task_engine task
  ok (
    job_id,
    event env.now "job" job_id "JOB_ENQUEUED" (enqueued_payload task engine)
        (record db { jobs = jobs }),
  )

unfoldable pub enqueue : Env → Fields → Db → Result (String × Db)
unfolding validate_task value_eq check_project_repository text_column find_by_key enqueue_new get
enqueue env task db = do
  validate_task env.sha256 task
  (if is_value github_only (get "integrations" task)
      then check_project_repository task db
      else ok tt)
  key ← text_column (get "idempotency_key" task)
  elim (same_request key db.jobs) [
    | some job ↦ ok (job.job_id, db)
    | none ↦ enqueue_new env task key db
  ]
