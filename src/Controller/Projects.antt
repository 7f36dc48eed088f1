-- ===== src/Controller/Projects.antt =====
-- The projects of controller.py: `register_project`, `project`, `list_projects`, `remove_project`.
pub mod Tasks
use dvk_claude.Common.{String, none, some, List, text_lt, is_some, sort, if◌then◌else◌}
use dvk_claude.Result.{Result, ok, err, controller_error, ◌>>=◌, ◌>>◌}
use dvk_claude.Json.{Fields, end, index_text}
use dvk_claude.Table.{find, upsert, delete}
use dvk_claude.Controller.Schema.{Project, Db, Env, project_key, event}
use dvk_claude.Controller.Validate.Project.{validate_project}

unfoldable pub store_project : Env → String → Fields → Db → Db
unfolding upsert
store_project env project_id manifest db = record db {
  projects =
      upsert project_key
        (record {
          project_id = project_id;
          manifest = manifest;
          registered_at = env.now;
          updated_at = env.now;
        })
        (λ p. record p { manifest = manifest; updated_at = env.now }) db.projects;
}

unfoldable pub register_project : Env → Fields → Db → Result (String × Db)
unfolding store_project event
register_project env manifest db = do
  validate_project manifest
  project_id ← index_text "project_id" manifest
  ok (
    project_id,
    event env.now "project" project_id "PROJECT_REGISTERED" end
        (store_project env project_id manifest db),
  )

abbrev pub unknown_project {ℓ} : {A : Type ℓ} → Result A
unknown_project = err (controller_error "unknown project")

unfoldable pub project : String → Db → Result Project
unfolding find
project project_id db = elim (find project_key project_id db.projects) [
  | none ↦ unknown_project
  | some p ↦ ok p
]

-- ORDER BY project_id
unfoldable pub list_projects : Db → List Project
unfolding sort
list_projects db = sort (λ a b. text_lt a.project_id b.project_id) db.projects

unfoldable pub remove_project : Env → String → Db → Result Db
unfolding find delete event
remove_project env project_id db =
    if is_some (find project_key project_id db.projects)
    then ok (
        event env.now "project" project_id "PROJECT_REMOVED" end
          (record db { projects = delete project_key project_id db.projects }))
    else unknown_project
