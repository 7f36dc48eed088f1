-- ===== src/Worker.antt =====
-- hermes_controller/worker.py and `AdapterResult` of adapters.py: what a worker makes of the result
-- of an engine before it reports it.
pub mod Client
pub mod Once
pub mod Recovery
pub mod Reports
pub mod Retries
pub mod Tests
use dvk_claude.Common.{
  ℕ, String, Bool, true, false, not, ◌&&◌, ◌||◌, Option, none, some, List, [], ◌∷◌, ◌++◌, ◌==◌,
  is_empty, is_some, all, any, member, distinct, concat, if◌then◌else◌,
}
use dvk_claude.Json.{
  Value, null, string, array, object, pos, integer, Items, nil, cons, Fields, end, field, get,
  get_or, has, is_str, keys, to_list, texts?, contains, put,
}
use dvk_claude.Result.{Error, value_error, type_error, Result, ok, err, ◌>>=◌, ◌>>◌, raise_if}
use dvk_claude.Artifacts.{validate_artifacts}
use dvk_claude.Controller.Claim.{Claim}

pub record AdapterResult : Type 0 where
  pub status : String
  pub summary : String
  pub gate : Option String
  pub completed : Option (List String)
  pub remaining : Option (List String)
  pub evidence : Option (List String)
  pub artifacts : Option Items
  pub hashes : Option Fields

abbrev pub or_empty : Option (List String) → List String
or_empty none = []
or_empty (some xs) = xs

abbrev pub items : List String → Items
items [] = nil
items (s ∷ ss) = cons (string s) (items ss)

abbrev pub text_or_null : Option String → Value
text_or_null none = null
text_or_null (some s) = string s

-- `AdapterResult.result`
unfoldable pub result_payload : AdapterResult → Fields
result_payload r = field "status" (string r.status) (
    field "summary" (string r.summary) (
      field "gate" (text_or_null r.gate) (
        field "completed" (array (items (or_empty r.completed))) (
          field "remaining" (array (items (or_empty r.remaining)))
            (field "evidence" (array (items (or_empty r.evidence))) end)))))

-- `AdapterResult(status=status, summary=summary)`
abbrev pub bare_result : String → String → AdapterResult
bare_result status summary = record {
  status = status;
  summary = summary;
  gate = none;
  completed = none;
  remaining = none;
  evidence = none;
  artifacts = none;
  hashes = none;
}

-- The gates that a task declares: none, if they are no list.
abbrev pub declared_gates : Fields → List Value
declared_gates task = elim (get_or "human_gates" (array nil) task) [
  | array vs ↦ to_list vs
  | v ↦ []
]

abbrev pub declares : Fields → String → Bool
declares task gate = any (is_str gate) (declared_gates task)

abbrev is_array : Value → Bool
is_array (array vs) = true
is_array v = false

-- The gates of a context, once they are known to be texts.
unfoldable pub check_gates : Fields → List String → Result (List String)
unfolding any all distinct get_or
check_gates task gates = do
  raise_if (any is_empty gates || not (distinct gates)) (value_error "invalid approved_gates")
  raise_if
      (not (is_array (get_or "human_gates" (array nil) task)) || not (all (declares task) gates))
      (value_error "approved gate is not declared by task")
  ok gates

abbrev context_gates : Fields → Option Value → Result (List String)
context_gates task (some (array vs)) = elim (texts? (to_list vs)) [
  | none ↦ err (value_error "invalid approved_gates")
  | some gates ↦ check_gates task gates
]
context_gates task v = err (value_error "invalid approved_gates")

abbrev is_only_key : String → Fields → Bool
is_only_key k fs = elim (keys fs) [ j ∷ [] ↦ j == k | _ ↦ false ]

-- `_approved_gate_names`
unfoldable pub approved_gate_names : Fields → Result (List String)
unfolding check_gates texts? get
approved_gate_names task = elim (get "_hermes_gate_context" task) [
  | none ↦ ok []
  | some null ↦ ok []
  | some (object context) ↦
      if is_only_key "approved_gates" context
      then context_gates task (get "approved_gates" context)
      else err (value_error "invalid _hermes_gate_context")
  | some v ↦ err (value_error "invalid _hermes_gate_context")
]

-- `except ValueError: approved_gates = set()`
abbrev pub gates_or_none : Result (List String) → List String
gates_or_none (ok gates) = gates
gates_or_none (err e) = []

abbrev noted : AdapterResult → String → Option (List String)
noted r note = some (or_empty r.evidence ++ note ∷ [])

-- `replace(result, gate=None, ...)` with a line of evidence.
abbrev pub without_gate : AdapterResult → String → AdapterResult
without_gate r note = record r {
  gate = none;
  completed = some (or_empty r.completed);
  remaining = some (or_empty r.remaining);
  evidence = noted r note;
}

abbrev pub refused_gate : AdapterResult → String → String → AdapterResult
refused_gate r summary note = record (without_gate r note) { status = "BLOCKED"; summary = summary }

abbrev pub missing_gate : AdapterResult → AdapterResult
missing_gate r =
    refused_gate r "adapter requested undeclared human gate: <missing>"
      "gate-policy: rejected undeclared WAIT_USER gate <missing>"

-- A WAIT_USER result keeps a gate that its task declares and that was not approved yet.
unfoldable pub check_wait : Fields → AdapterResult → Option String → AdapterResult
unfolding any member approved_gate_names get_or
check_wait task r none = missing_gate r
check_wait task r (some gate) =
    if is_empty gate
    then missing_gate r
    else if not (declares task gate)
    then refused_gate r (concat "adapter requested undeclared human gate: " gate)
        (concat "gate-policy: rejected undeclared WAIT_USER gate " gate)
    else if member gate (gates_or_none (approved_gate_names task))
    then refused_gate r (concat "adapter re-requested already-approved human gate: " gate)
        (concat "gate-policy: rejected already-approved WAIT_USER gate " gate)
    else r

abbrev is_container : Value → Bool
is_container (array vs) = true
is_container (object fs) = true
is_container v = false

abbrev pub ignore_gate : AdapterResult → Option String → AdapterResult
ignore_gate r none = r
ignore_gate r (some gate) =
    without_gate r (concat (concat (concat "gate-policy: ignored gate on " r.status) ": ") gate)

-- `_normalize_gate_result`: the declared gates are made a set, which a container cannot be put in.
unfoldable pub normalize_gate_result : AdapterResult → Fields → Result AdapterResult
unfolding any check_wait get_or
normalize_gate_result r task =
    if any is_container (declared_gates task)
    then err type_error
    else ok (if r.status == "WAIT_USER" then check_wait task r r.gate else ignore_gate r r.gate)

abbrev pub artifact_list : Option Items → Value
artifact_list none = array nil
artifact_list (some vs) = array vs

abbrev pub hash_table : Option Fields → Value
hash_table none = object end
hash_table (some fs) = object fs

-- An adapter's artifacts are checked before the controller sees them.
abbrev pub rejected_artifacts : AdapterResult → AdapterResult
rejected_artifacts r = record r {
  status = "FAILED";
  summary = concat "adapter produced invalid artifacts: " r.summary;
  gate = none;
  evidence = noted r "artifact-policy: rejected adapter artifacts";
  artifacts = none;
  hashes = none;
}

-- `_normalize_artifacts`; an error that is no ValueError ends the turn.
unfoldable pub normalize_artifacts : (String → String) → AdapterResult → Result AdapterResult
unfolding validate_artifacts
normalize_artifacts sha256 r =
    elim (validate_artifacts sha256 (artifact_list r.artifacts) (hash_table r.hashes)) [
      | ok done ↦ ok r
      | err (value_error m) ↦ ok (rejected_artifacts r)
      | err e ↦ err e
    ]
