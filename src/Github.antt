-- ===== src/Github.antt =====
-- hermes_controller/github_api.py: the contract of an integration request, which the controller
-- checks. The requests themselves are not modelled.
pub mod Evidence
pub mod Bounded
pub mod Tests
use Prim.Native.Char.{code}
use dvk_claude.Common.{
  ℕ, String, Bool, true, false, not, ◌&&◌, ◌||◌, Option, none, some, List, [], ◌∷◌, ◌==◌, ◌=?◌,
  codes, is_empty, is_alnum, split, all, member, if◌then◌else◌,
}
use dvk_claude.Result.{Result, ok, err, value_error, ◌>>=◌, ◌>>◌, raise_if}
use dvk_claude.Json.{Value, string, object, Fields, get, has, is_given}
use dvk_claude.Brainstorm.Contract.{exact_fields}

abbrev pub known_integrations : List String
known_integrations = "github_api" ∷ []

abbrev pub github_api_verbs : List String
github_api_verbs = "pr_create" ∷ "pr_get" ∷ "pr_list" ∷ "actions_status" ∷ "commit_status" ∷ []

abbrev check_verb : Option Value → Result (Unit {0})
check_verb (some (string verb)) =
    raise_if (not (member verb github_api_verbs)) (value_error "unknown github_api verb")
check_verb v = err (value_error "unknown github_api verb")

abbrev check_params : Option Value → Result (Unit {0})
check_params (some (object params)) =
    raise_if (has "owner" params || has "repo" params)
      (value_error "github_api params cannot override owner/repo")
check_params v = err (value_error "github_api params must be a dict")

unfoldable pub validate_github_api_request : Option Value → Result (Unit {0})
unfolding member get
validate_github_api_request (some (object request)) = do
  check_verb (get "verb" request)
  check_params (get "params" request)
validate_github_api_request v = err (value_error "github_api integration_request must be a dict")

-- `[A-Za-z0-9_-][A-Za-z0-9_.-]*`
unfoldable pub is_repo_name : List ℕ → Bool
unfolding is_alnum all
is_repo_name [] = false
is_repo_name (c ∷ cs) =
    (is_alnum c || c =? b'_' || c =? b'-')
    && all (λ d. is_alnum d || d =? b'_' || d =? b'.' || d =? b'-') cs

-- `s.removesuffix(".git")`
unfoldable pub remove_git : String → String
remove_git String.[] = ""
remove_git (String.◌∷◌ c s) =
    let rest = remove_git s in if String.◌∷◌ c s == ".git" then "" else String.◌∷◌ c rest

-- The text behind a prefix.
unfoldable pub without_prefix : String → String → Option String
without_prefix String.[] s = some s
without_prefix (String.◌∷◌ c p) String.[] = none
without_prefix (String.◌∷◌ c p) (String.◌∷◌ d s) =
    let rest = without_prefix p s in if code c =? code d then rest else none

abbrev pub bad_repository {ℓ} : {A : Type ℓ} → Result A
bad_repository = err (value_error "invalid GitHub repository")

-- The part behind `github.com:` or `github.com/`. A name holds no `/`, so there are two parts.
unfoldable pub owner_repo : String → Result (String × String)
unfolding is_repo_name remove_git split
owner_repo s = elim (split b'/' s) [
  | owner ∷ repo ∷ [] ↦
      if is_repo_name (codes owner) && is_repo_name (codes repo)
      then (if is_empty (remove_git repo) then bad_repository else ok (owner, remove_git repo))
      else bad_repository
  | _ ↦ bad_repository
]

unfoldable pub parse_github_repository : Option Value → Result (String × String)
unfolding owner_repo without_prefix
parse_github_repository (some (string s)) = elim (without_prefix "git@github.com:" s) [
  | some rest ↦ owner_repo rest
  | none ↦ elim (without_prefix "https://github.com/" s) [
    | some rest ↦ owner_repo rest
    | none ↦ bad_repository
  ]
]
parse_github_repository v = bad_repository

-- `task.get("github_repository", expected) == expected`
abbrev names_repository : String × String → Option Value → Bool
names_repository r none = true
names_repository r (some (object fs)) =
    exact_fields ("owner" ∷ "repo" ∷ []) fs
    && is_given (get "owner" fs) r.0
    && is_given (get "repo" fs) r.1
names_repository r (some v) = false

unfoldable pub github_task_repository : Fields → Result (String × String)
unfolding parse_github_repository exact_fields get
github_task_repository task = parse_github_repository (get "repository" task) >>= λ r.
    raise_if (not (names_repository r (get "github_repository" task)))
      (value_error "github_repository does not match repository")
    >> ok r
