-- ===== src/Controller/Validate.antt =====
-- `_validate_worker`, `_validate_task` and what they call, of controller.py. The checks run in the
-- order of the source; each raises the error of its line.
pub mod Project
pub mod Envelope
use dvk_claude.Common.{
  ℕ, ◌*◌, String, Bool, true, false, not, ◌&&◌, ◌||◌, Option, none, some, List, [], ◌∷◌, ◌++◌, ◌==◌,
  is_blank, is_some, is_empty, utf8_length, starts_with, ltb, all, any, member, distinct,
  if◌then◌else◌,
}
use dvk_claude.Result.{
  Result, ok, err, controller_error, ◌>>=◌, ◌>>◌, raise_if, as_controller_error,
}
use dvk_claude.Json.{
  Value, null, string, array, object, nil, Fields, get, get_or, has, has_all, keys, array?, texts?,
  to_list, is_text, is_str, is_given, in_set, truthy,
}
use dvk_claude.Github.{known_integrations, validate_github_api_request, github_task_repository}
use dvk_claude.Brainstorm.Contract.{validate_brainstorm_config}

-- `ENGINE_CAPABILITIES`
abbrev pub engine_names : List String
engine_names = "codex" ∷ "claude" ∷ "hybrid" ∷ "native" ∷ "brainstorm" ∷ []

unfoldable pub engine_capabilities : String → List String
engine_capabilities engine =
    if engine == "codex"
    then "codex" ∷ []
    else if engine == "claude"
    then "claude" ∷ []
    else if engine == "hybrid" || engine == "brainstorm"
    then "codex" ∷ "claude" ∷ []
    else []

-- `d.get(key)` seen as Python sees `None`: a null is no value.
unfoldable pub given : String → Fields → Option Value
unfolding get
given k fs = elim (get k fs) [ none ↦ none | some null ↦ none | some v ↦ some v ]

-- Texts that are not empty.
unfoldable pub nonempty_texts : Option Value → Option (List String)
unfolding texts? all
nonempty_texts (some (array vs)) = elim (texts? (to_list vs)) [
  | none ↦ none
  | some ss ↦ if all (λ s. not (is_empty s)) ss then some ss else none
]
nonempty_texts v = none

unfoldable pub validate_worker : Fields → Result (Unit {0})
unfolding has_all in_set
validate_worker worker = do
  let bad = controller_error "invalid worker descriptor"
  raise_if
      (not (
        has_all
          ("worker_id" ∷ "platform" ∷ "environment" ∷ "capabilities" ∷ "max_concurrent_jobs" ∷ [])
          worker))
      bad
  known ← in_set (get_or "platform" null worker) ("linux" ∷ "windows" ∷ [])
  raise_if (not known) bad
  raise_if (not (is_some (array? (get_or "capabilities" null worker)))) bad

abbrev bad_integrations {ℓ} : {A : Type ℓ} → Result A
bad_integrations =
    err (controller_error "invalid integrations: expected unique known integration names")

-- `_validate_integrations`, which hands on the names that it has read.
unfoldable pub validate_integrations : Value → Result (List String)
unfolding texts? all member distinct
validate_integrations (array vs) = elim (texts? (to_list vs)) [
  | none ↦ bad_integrations
  | some names ↦
      if all (λ n. member n known_integrations) names && distinct names
      then ok names
      else bad_integrations
]
validate_integrations v = bad_integrations

unfoldable pub check_snapshot : Fields → Result Fields
unfolding any has_all in_set get
check_snapshot task = do
  raise_if (any (λ k. starts_with k "_hermes_") (keys task))
      (controller_error "task keys with _hermes_ prefix are reserved")
  raise_if (not (has_all required task)) (controller_error "invalid task snapshot")
  known ← in_set (get_or "idempotency_policy" null task) ("safe_retry" ∷ "manual_reconcile" ∷ [])
  raise_if (not known) (controller_error "invalid task snapshot")
  brain_of (get "brain" task)
  where
    required : List String
    required =
        "brain" ∷ "project" ∷ "repository" ∷ "ref" ∷ "task_type" ∷ "platform"
        ∷ "required_capabilities" ∷ "execution_profile" ∷ "human_gates" ∷ "idempotency_policy" ∷ []

    brain_of : Option Value → Result Fields
    brain_of (some (object brain)) =
        if has_all ("repository" ∷ "ref" ∷ "commit" ∷ []) brain
        then ok brain
        else err (controller_error "task requires immutable brain reference")
    brain_of v = err (controller_error "task requires immutable brain reference")

abbrev is_inline_text : Option Value → Bool
is_inline_text (some (string s)) = not (is_blank s)
is_inline_text v = false

abbrev is_inline_repository : Option Value → Bool
is_inline_repository (some (string s)) = starts_with s "inline://"
is_inline_repository v = false

abbrev truthy? : Option Value → Bool
truthy? none = false
truthy? (some v) = truthy v

module _ (sha256 : String → String) where
  unfoldable pub check_inline_text : Fields → Option Value → Result (Unit {0})
  unfolding get
  check_inline_text brain none = ok tt
  check_inline_text brain (some (string s)) = do
    raise_if (is_blank s) (controller_error "invalid inline task_text")
    raise_if (ltb (1024 * 1024) (utf8_length s)) (controller_error "inline task_text exceeds 1 MiB")
    raise_if
        (is_inline_repository (get "repository" brain)
          && not (is_given (get "commit" brain) (sha256 s)))
        (controller_error "inline task_text hash does not match brain commit")
  check_inline_text brain (some v) = err (controller_error "invalid inline task_text")

-- The engine's capabilities must be among those that the task requires.
unfoldable pub check_engine : Option Value → List String → Result (Unit {0})
unfolding in_set engine_capabilities all member
check_engine none capabilities = ok tt
check_engine (some v) capabilities = do
  known ← in_set v engine_names
  raise_if (not known) (controller_error "invalid execution_engine")
  raise_if (not (all (λ c. member c capabilities) (needed v)))
      (controller_error "execution_engine capabilities are missing")
  where
    needed : Value → List String
    needed (string engine) = engine_capabilities engine
    needed w = []

unfoldable pub check_integrations : Fields → List String → Result (Unit {0})
unfolding validate_integrations validate_github_api_request github_task_repository member get get_or
check_integrations task capabilities = do
  names ← validate_integrations (get_or "integrations" (array nil) task)
  (if member "github_api" names
      then (do
        as_controller_error (validate_github_api_request (get "integration_request" task))
        _ ← as_controller_error (github_task_repository task)
        raise_if (not (member "github_api" capabilities))
            (controller_error "github_api integration capability is missing"))
      else raise_if (has "integration_request" task)
          (controller_error "integration_request requires github_api integration"))
  raise_if (member "github_api" capabilities && not (member "github_api" names))
      (controller_error "github_api capability requires explicit integration opt-in")

abbrev pub is_brainstorm : Fields → Bool
is_brainstorm task = is_given (get "execution_engine" task) "brainstorm"

abbrev same : Bool → Bool → Bool
same true b = b
same false b = not b

unfoldable pub validate_brainstorm_task : Fields → Result (Unit {0})
unfolding validate_brainstorm_config get get_or
validate_brainstorm_task task = do
  raise_if (not (same (is_given (get "task_type" task) "brainstorm") (is_brainstorm task)))
      (controller_error "brainstorm task_type requires execution_engine brainstorm")
  if is_brainstorm task
      then (do
        raise_if (not (is_given (get "execution_profile" task) "brainstorm"))
            (controller_error "brainstorm execution_profile must be brainstorm")
        raise_if (not (has "brainstorm" task)) (controller_error "brainstorm config is required")
        _ ← as_controller_error (validate_brainstorm_config (get_or "brainstorm" null task))
        ok tt)
      else raise_if (has "brainstorm" task)
          (controller_error "brainstorm config requires execution_engine brainstorm")

abbrev texts_or_raise : Option (List String) → Result (List String)
texts_or_raise none = err (controller_error "invalid required_capabilities")
texts_or_raise (some cs) = ok cs

abbrev pub is_text? : Option Value → Bool
is_text? none = true
is_text? (some v) = is_text v

unfoldable pub validate_task : (String → String) → Fields → Result (Unit {0})
unfolding check_snapshot check_inline_text nonempty_texts check_engine check_integrations is_text
    validate_brainstorm_task given get
validate_task sha256 task = do
  brain ← check_snapshot task
  raise_if (not (truthy? (get "task_file" brain)) && not (is_inline_text (get "task_text" task)))
      (controller_error "task requires brain.task_file or inline task_text")
  check_inline_text sha256 brain (given "task_text" task)
  capabilities ← texts_or_raise (nonempty_texts (get "required_capabilities" task))
  raise_if (not (is_text? (given "worker_id" task))) (controller_error "invalid worker_id")
  check_engine (given "execution_engine" task) capabilities
  check_integrations task capabilities
  validate_brainstorm_task task
