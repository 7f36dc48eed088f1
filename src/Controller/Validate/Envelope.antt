-- ===== src/Controller/Validate/Envelope.antt =====
-- `_validate_envelope`, `_result_payload` and `_task_engine` of controller.py.
use dvk_claude.Common.{
  String, not, ◌&&◌, Option, none, some, List, [], ◌∷◌, ◌++◌, ◌==◌, is_some, member, if◌then◌else◌,
}
use dvk_claude.Result.{
  Result, ok, err, controller_error, key_error, ◌>>=◌, ◌>>◌, raise_if, as_controller_error,
}
use dvk_claude.Json.{
  Value, null, string, array, object, nil, Fields, get, get_or, has, has_all, array?, object?,
  in_set, contains, truthy,
}
use dvk_claude.Artifacts.{validate_artifacts}
use dvk_claude.Github.{known_integrations}
use dvk_claude.Controller.Schema.{State, done, wait_user, blocked, failed}
use dvk_claude.Controller.Validate.{engine_names, given}

-- `result["status"]`, read as a member of `RESULT_STATUSES`.
unfoldable pub status_of : Value → Option State
status_of (string s) =
    if s == "DONE"
    then some done
    else if s == "WAIT_USER"
    then some wait_user
    else if s == "BLOCKED"
    then some blocked
    else if s == "FAILED"
    then some failed
    else none
status_of v = none

-- `_result_payload`
unfoldable pub result_payload : Fields → Result Value
unfolding get
result_payload envelope = elim (get "engine_result" envelope) [
  | some v ↦ ok v
  | none ↦ elim (get "codex_result" envelope) [ some v ↦ ok v | none ↦ err key_error ]
]

-- The result that an envelope carries, once it is known to be of the contract.
pub record Outcome : Type 0 where
  pub status : State
  pub payload : Fields

abbrev pub read_outcome : Fields → Option State → Result Outcome
read_outcome result (some s) = ok (record { status = s; payload = result })
read_outcome result none = err (controller_error "invalid engine result")

unfoldable pub check_result : Value → Result Outcome
unfolding get_or has_all status_of in_set
check_result (object result) = do
  known ← in_set (get_or "status" null result) ("DONE" ∷ "WAIT_USER" ∷ "BLOCKED" ∷ "FAILED" ∷ [])
  raise_if (not known) (controller_error "invalid engine result")
  raise_if (not (has_all required result))
      (controller_error "engine result does not match Hermes runner contract")
  read_outcome result (status_of (get_or "status" null result))
  where
    required : List String
    required = "status" ∷ "summary" ∷ "gate" ∷ "completed" ∷ "remaining" ∷ "evidence" ∷ []
check_result v = err (controller_error "invalid engine result")

-- An envelope has one payload; the legacy one is for `codex` alone.
unfoldable pub check_payload_kind : Fields → Result (Unit {0})
unfolding get get_or in_set given member
check_payload_kind envelope =
    if has "engine_result" envelope
    then (if has "codex_result" envelope
        then err (controller_error "result envelope must contain exactly one result payload")
        else (do
          known ← in_set (get_or "engine" null envelope) (engine_names ++ known_integrations)
          raise_if (not known) (controller_error "invalid result engine")))
    else (if has "codex_result" envelope
        then legacy (given "engine" envelope)
        else err (controller_error "result envelope must contain exactly one result payload"))
  where
    legacy : Option Value → Result (Unit {0})
    legacy none = ok tt
    legacy (some v) = do
      known ← in_set v ("codex" ∷ [])
      raise_if (not known) (controller_error "legacy codex_result cannot use another engine")

unfoldable pub envelope_keys : List String
envelope_keys =
    "job_id" ∷ "run_id" ∷ "attempt" ∷ "worker_id" ∷ "lease_id" ∷ "lease_token" ∷ "started_at"
    ∷ "finished_at" ∷ "artifacts" ∷ "hashes" ∷ []

-- `_validate_envelope`; it hands on the result that it has read.
unfoldable pub validate_envelope : (String → String) → Fields → Result Outcome
unfolding envelope_keys has_all get get_or validate_artifacts check_payload_kind result_payload
    check_result
validate_envelope sha256 envelope = do
  raise_if (not (has_all envelope_keys envelope)) (controller_error "invalid result envelope")
  raise_if
      (not (
        is_some (array? (get_or "artifacts" null envelope))
        && is_some (object? (get_or "hashes" null envelope))))
      (controller_error "invalid result artifacts or hashes")
  as_controller_error
      (validate_artifacts sha256 (get_or "artifacts" null envelope) (get_or "hashes" null envelope))
  check_payload_kind envelope
  payload ← result_payload envelope
  check_result payload

abbrev explicit_engine : Option Value → Option Value
explicit_engine none = none
explicit_engine (some v) = if truthy v then some v else none

-- `_task_engine`: the label of the executor whose result a job awaits.
unfoldable pub task_engine : Fields → Result Value
unfolding contains get get_or
task_engine task = do
  integrated ← contains "github_api" (get_or "integrations" (array nil) task)
  if integrated
      then ok (string "github_api")
      else elim (explicit_engine (get "execution_engine" task)) [
        | some v ↦ ok v
        | none ↦ (do
          codex ← contains "codex" (get_or "required_capabilities" (array nil) task)
          ok (string (if codex then "codex" else "native")))
      ]
