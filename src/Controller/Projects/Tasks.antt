-- ===== src/Controller/Projects/Tasks.antt =====
-- `build_project_task` of controller.py: a task snapshot from the manifest of a project. The
-- arguments have the types that the source declares; `fold` is that of `select_engine`.
use Prim.Native.Char.{code}
use dvk_claude.Common.{
  ◌*◌, String, Bool, true, false, not, ◌&&◌, ◌||◌, Option, none, some, List, [], ◌∷◌, ◌++◌, ◌==◌,
  ◌=?◌, ltb, is_empty, is_blank, is_some, text_lt, utf8_length, concat, member, sort, if◌then◌else◌,
}
use dvk_claude.Result.{
  Result, ok, err, controller_error, type_error, ◌>>=◌, ◌>>◌, raise_if, as_controller_error,
}
use dvk_claude.Json.{
  pos, Value, null, integer, string, array, object, nil, Fields, end, field, get, get_or, index,
  index_text, put, texts?, to_list, contains, truthy,
}
use dvk_claude.Brainstorm.Contract.{build_brainstorm_config}
use dvk_claude.Github.{parse_github_repository}
use dvk_claude.EnginePolicy.{EngineDecision, dedup, select_engine}
use dvk_claude.Controller.Schema.{Db, Env}
use dvk_claude.Controller.Validate.{
  engine_capabilities, given, validate_integrations, validate_task,
}
use dvk_claude.Controller.Results.{list_of, texts}
use dvk_claude.Controller.Projects.{project}

pub record Request : Type 0 where
  pub instruction : String
  pub engine : Option String
  pub idempotency_key : Option String
  pub workspaces : List String
  pub integrations : Option (List String)
  pub integration_request : Option Fields
  pub brainstorm_candidates : Option Value
  pub brainstorm_rubric : Option Value

-- The engine of the task, none for an integration, and how it was selected.
pub record Selection : Type 0 where
  pub engine : Option String
  pub how : Fields

abbrev text_list : Value → Result (List String)
text_list (array vs) = elim (texts? (to_list vs)) [ none ↦ err type_error | some ss ↦ ok ss ]
text_list v = err type_error

abbrev is_filled : Option String → Bool
is_filled none = false
is_filled (some s) = not (is_empty s)

abbrev chosen_engine : Option String → Fields → Result String
chosen_engine none manifest = index_text "default_engine" manifest
chosen_engine (some s) manifest = if is_empty s then index_text "default_engine" manifest else ok s

abbrev policy_name : Value → Result String
policy_name (string s) = ok s
policy_name v = err (controller_error "unsupported engine policy")

abbrev automatic : EngineDecision → Selection
automatic d = record {
  engine = some d.engine;
  how = field "mode" (string "auto") (
      field "policy" (string d.policy)
        (field "rule" (string d.rule) (field "selected_engine" (string d.engine) end)));
}

abbrev explicit : Bool → String → Selection
explicit named engine = record {
  engine = some engine;
  how =
      field "mode" (string (if named then "explicit" else "project-default"))
        (field "selected_engine" (string engine) end);
}

abbrev integration_only : Option (List String) → Bool
integration_only (some (s ∷ [])) = s == "github_api"
integration_only names = false

unfoldable pub choose_engine : (String → String) → Request → Fields → Result Selection
unfolding select_engine index index_text member get_or
choose_engine fold request manifest = do
  requested ← chosen_engine request.engine manifest
  if integration_only request.integrations
      then ok (record {
        engine = none;
        how = field "mode" (string "integration") (field "executor" (string "github_api") end);
      })
      else if requested == "auto"
      then (do
        policy ← policy_name (get_or "engine_policy" (string "balanced-v1") manifest)
        engines ← index "allowed_engines" manifest >>= text_list
        d ← as_controller_error (select_engine fold request.instruction engines policy)
        ok (automatic d))
      else (do
        engines ← index "allowed_engines" manifest >>= text_list
        raise_if (not (member requested engines))
            (controller_error "engine is not allowed for project")
        ok (explicit (is_some request.engine) requested))

abbrev is_brainstorm_engine : Option String → Bool
is_brainstorm_engine none = false
is_brainstorm_engine (some engine) = engine == "brainstorm"

-- The block of a brainstorm task; its options belong to that engine only.
unfoldable pub brainstorm_block : Request → Option String → Result (Option Value)
unfolding build_brainstorm_config
brainstorm_block request engine =
    if is_brainstorm_engine engine
    then (do
      config ←
          as_controller_error
            (build_brainstorm_config request.brainstorm_candidates request.brainstorm_rubric)
      ok (some config))
    else if is_some request.brainstorm_candidates || is_some request.brainstorm_rubric
    then err (controller_error "brainstorm options require --engine brainstorm")
    else ok none

abbrev names_or_none : Option (List String) → List String
names_or_none none = []
names_or_none (some names) = names

unfoldable pub allow_each : List String → Value → Result (Unit {0})
unfolding contains
allow_each [] allowed = ok tt
allow_each (s ∷ ss) allowed = do
  granted ← contains s allowed
  raise_if (not granted) (controller_error "integration is not allowed for project")
  allow_each ss allowed

unfoldable pub requested_integrations : Request → Fields → Result (List String)
unfolding validate_integrations allow_each get_or
requested_integrations request manifest = do
  names ← validate_integrations (array (texts (names_or_none request.integrations)))
  allow_each names (get_or "allowed_integrations" (array nil) manifest)
  raise_if (is_some request.integration_request && is_nil names)
      (controller_error "integration_request requires an integration")
  ok names
  where
    is_nil : List String → Bool
    is_nil [] = true
    is_nil (s ∷ ss) = false

-- The workspaces that are asked for, with their paths.
unfoldable pub select_workspaces : List String → Value → Result Fields
unfolding get
select_workspaces [] declared = ok end
select_workspaces (s ∷ ss) (object declared) =
    let rest = select_workspaces ss (object declared) in
    elim (get s declared) [
      | none ↦ err (controller_error "unknown project workspace")
      | some path ↦ rest >>= λ others. ok (field s path others)
    ]
select_workspaces (s ∷ ss) v = err type_error

-- `s.rstrip("/\\")`
unfoldable pub rstrip_separators : String → String
rstrip_separators String.[] = ""
rstrip_separators (String.◌∷◌ c s) =
    let rest = rstrip_separators s in
    if (code c =? b'/' || code c =? b'\\') && is_empty rest then "" else String.◌∷◌ c rest

abbrev values_of : Fields → List Value
values_of end = []
values_of (field k v fs) = v ∷ values_of fs

abbrev optional : String → Option Value → Fields → Fields
optional k none task = task
optional k (some v) task = put k v task

abbrev when_truthy : Option Value → Option Value
when_truthy none = none
when_truthy (some v) = if truthy v then some v else none

abbrev engine_value : Option String → Value
engine_value none = null
engine_value (some engine) = string engine

abbrev capabilities_of : Option String → List String
capabilities_of none = []
capabilities_of (some engine) = engine_capabilities engine

-- `sorted(capabilities)` of a set
unfoldable pub required_capabilities : List String → Option String → List String → List String
unfolding sort dedup engine_capabilities
required_capabilities granted engine integrations =
    sort text_lt (dedup [] (granted ++ capabilities_of engine ++ integrations))

-- The fields that every task has, those that name the executor left out.
unfoldable pub base_task :
    Env → String → Request → Selection → List String → Fields → Fields → Result Fields
unfolding list_of index index_text get_or rstrip_separators dedup required_capabilities texts?
base_task env project_id request selection integrations workspaces manifest = do
  runtime ← index_text "runtime_directory" manifest
  working ← index_text "working_directory" manifest
  granted ← text_list (get_or "capabilities" (array nil) manifest)
  repository ← index "repository" manifest
  ref ← index "ref" manifest
  platform ← index "platform" manifest
  gates ← list_of (get_or "human_gates" (array nil) manifest)
  extra ← text_list (get_or "allowed_paths" (array nil) manifest)
  chosen ← named_paths (texts? (values_of workspaces))
  ok (
      field "job_id" (string env.job_id) (
        field "brain"
          (object (
            field "repository" (string (concat "inline://hermes-projects/" project_id)) (
              field "ref" (string project_id)
                (field "commit" (string (env.sha256 request.instruction)) end))))
          (field "task_text" (string request.instruction) (
            field "project" (string project_id) (
              field "repository" repository (
                field "ref" ref (
                  field "task_type" (get_or "task_type" (string "development") manifest) (
                    field "platform" platform (
                      field "required_capabilities"
                        (array
                          (texts (required_capabilities granted selection.engine integrations)))
                        (field "execution_profile"
                          (get_or "execution_profile" (string "hermes") manifest)
                          (field "execution_engine" (engine_value selection.engine) (
                            field "engine_selection" (object selection.how) (
                              field "human_gates" (array gates) (
                                field "idempotency_policy"
                                  (get_or "idempotency_policy" (string "safe_retry") manifest)
                                  (field "working_directory" (string working) (
                                    field "run_output_dir"
                                      (string (
                                        concat (rstrip_separators runtime) (concat "/" env.job_id)))
                                      (field "allowed_paths"
                                        (array (
                                          texts (
                                            dedup [] (
                                              working ∷ rstrip_separators runtime ∷ extra
                                              ++ chosen))))
                                        (field "selected_workspaces" (object workspaces) (
                                          field "project_manifest_version" (integer (pos 1))
                                            end)))))))))))))))))))
  where
    named_paths : Option (List String) → Result (List String)
    named_paths none = err type_error
    named_paths (some ss) = ok ss

abbrev without_key : String → Fields → Fields
without_key k end = end
without_key k (field j v fs) = if j == k then fs else field j v (without_key k fs)

-- An integration runs no engine, and names the repository of the project.
unfoldable pub with_repository : Bool → Fields → Fields → Result Fields
unfolding parse_github_repository get put
with_repository false manifest task = ok task
with_repository true manifest task = do
  named ← as_controller_error (parse_github_repository (get "repository" manifest))
  ok (
      put "github_repository"
        (object (field "owner" (string named.0) (field "repo" (string named.1) end)))
        (without_key "execution_engine" task))

abbrev request_value : Option Fields → Value
request_value none = null
request_value (some fs) = object fs

unfoldable pub with_integrations : List String → Option Fields → Fields → Fields
unfolding put
with_integrations [] request task = task
with_integrations (s ∷ ss) request task =
    put "integration_request" (request_value request)
      (put "integrations" (array (texts (s ∷ ss))) task)

-- A brainstorm task only reads: it crosses no gate, and is safe to retry.
unfoldable pub with_brainstorm : Option Value → Fields → Fields
unfolding put
with_brainstorm none task = task
with_brainstorm (some config) task = put "brainstorm" config (
    put "idempotency_policy" (string "safe_retry") (
      put "human_gates" (array nil) (
        put "execution_profile" (string "brainstorm")
          (put "task_type" (string "brainstorm") task))))

abbrev filled_key : Option String → Option Value
filled_key none = none
filled_key (some s) = if is_empty s then none else some (string s)

unfoldable pub with_options : Request → Fields → Fields → Fields
unfolding given get put
with_options request manifest task =
    optional "idempotency_key" (filled_key request.idempotency_key) (
      optional "max_turns" (given "max_turns" manifest) (
        optional "timeout_seconds" (given "timeout_seconds" manifest)
          (optional "worker_id" (when_truthy (get "worker_id" manifest)) task)))

unfoldable pub build_project_task : (String → String) → Env → String → Request → Db → Result Fields
unfolding choose_engine brainstorm_block requested_integrations select_workspaces base_task
    with_repository with_integrations with_options with_brainstorm validate_task project get_or
    dedup
build_project_task fold env project_id request db = do
  raise_if (is_blank request.instruction) (controller_error "project task instruction is required")
  raise_if (ltb (1024 * 1024) (utf8_length request.instruction))
      (controller_error "project task instruction exceeds 1 MiB")
  found ← project project_id db
  selection ← choose_engine fold request found.manifest
  block ← brainstorm_block request selection.engine
  integrations ← requested_integrations request found.manifest
  workspaces ←
      select_workspaces (dedup [] request.workspaces)
        (get_or "workspaces" (object end) found.manifest)
  base ← base_task env project_id request selection integrations workspaces found.manifest
  named ← with_repository (integration_only request.integrations) found.manifest base
  let task = with_brainstorm block (
      with_options request found.manifest
        (with_integrations integrations request.integration_request named))
  validate_task env.sha256 task
  ok task
