-- ===== src/Brainstorm/Orchestration.antt =====
-- `_Run`, the budget and the checkpoints of hermes_controller/brainstorm.py. The directory of a run is
-- its files by name. The JSON of a budget or of a checkpoint is kept as what it stands for; the bytes
-- of an output are a text. Times are milliseconds. The directories of the single model calls are left
-- out.
pub mod ModelStage
pub mod Workflow
pub mod Bounded
pub mod Calls
pub mod Resumed
pub mod Tests
use dvk_claude.Common.{
  ℕ, zero, suc, ◌+◌, ◌-◌, ◌*◌, ◌/◌, ◌⊎◌, inl, inr, String, Bool, true, false, not, ◌&&◌, ◌||◌,
  Option, none, some, List, [], ◌∷◌, ◌++◌, ◌==◌, ◌=?◌, ltb, leb, concat, member, if◌then◌else◌,
}
use dvk_claude.Common.Dict.{lookup, assign}
use dvk_claude.Json.{Value}
use dvk_claude.Result.{Error, value_error, Result, ok, err}

abbrev pub max_stage_retries : ℕ
max_stage_retries = 1

abbrev pub max_total_retries : ℕ
max_total_retries = 2

abbrev pub checkpoint_schema_version : String
checkpoint_schema_version = "hermes-brainstorm-checkpoint/1"

-- BrainstormError with its status, and any other exception.
pub data Trouble : Type 0 where
  blocked : String → Trouble
  failed : String → Trouble
  unexpected : Error → Trouble

pub record Budget : Type 0 where
  pub run_id : String
  pub attempt : ℕ
  pub budget_seconds : ℕ
  pub started_at : ℕ
  pub retries_used : ℕ
  pub stage_retries : List (String × ℕ)
  pub model_calls : ℕ

pub record Checkpoint : Type 0 where
  pub schema_version : String
  pub stage : String
  pub engine : String
  pub stage_name : String
  pub input_sha256 : String
  pub output_path : String
  pub output_sha256 : String

-- What `_read_nofollow` and `json.loads` make of a file: a link cannot be read, and bytes that are no
-- such document are corrupt. A file that is absent has no entry.
pub data File {ℓ} (A : Type ℓ) : Type ℓ where
  unreadable : File A
  corrupt : File A
  holds : A → File A

pub record Run : Type 0 where
  pub run_id : String
  pub attempt : ℕ
  pub budget : Budget
  pub budget_file : Option (File Budget)
  pub checkpoints : List (String × File Checkpoint)
  -- the bytes of an output
  pub outputs : List (String × File String)
  pub evidence : List String
  pub validated_outputs : List String
  pub completed : List String

-- `_json_bytes`, `json.loads` and `_sha256` of the standard library.
pub record Codec : Type 0 where
  pub json_bytes : Value → String
  pub loads : String → Option Value
  pub sha256 : String → String

-- A model stage: its names, the hash of its inputs, and the validation of its output.
pub record Stage {ℓ} (V : Type ℓ) : Type ℓ where
  pub engine : String
  pub kind : String
  pub output_name : String
  pub input_sha256 : String
  pub validate : Value → Result V

abbrev pub stage_name {ℓ} : {V : Type ℓ} → Stage V → String
stage_name s = concat (concat s.engine "-") s.kind

abbrev pub output_path : String → String
output_path name = concat "orchestration/" name

abbrev pub new_budget : String → ℕ → ℕ → ℕ → Budget
new_budget run_id attempt budget_seconds now = record {
  run_id = run_id;
  attempt = attempt;
  budget_seconds = budget_seconds;
  started_at = now;
  retries_used = 0;
  stage_retries = [];
  model_calls = 0;
}

-- `_load_budget`: an attempt that is resumed keeps its budget.
unfoldable pub load_budget : ℕ → ℕ → Run → Trouble ⊎ Run
load_budget budget_seconds now run = elim run.budget_file [
  | some unreadable ↦ inl (failed "budget.json is unreadable or a symlink")
  | some corrupt ↦ inl (failed "budget.json is corrupt")
  | some (holds budget) ↦
      if budget.run_id == run.run_id && budget.attempt =? run.attempt
      then inr (record run { budget = budget })
      else inr fresh
  | none ↦ inr fresh
]
  where
    fresh : Run
    fresh =
        let budget = new_budget run.run_id run.attempt budget_seconds now in
        record run { budget = budget; budget_file = some (holds budget) }

-- `_save_budget`
abbrev pub save_budget : Budget → Run → Run
save_budget budget run = record run { budget = budget; budget_file = some (holds budget) }

-- The milliseconds that are left.
abbrev pub remaining : Budget → ℕ → ℕ
remaining budget now = budget.budget_seconds * 1000 + budget.started_at - now

-- `_effective_timeout`, in seconds
unfoldable pub effective_timeout : ℕ → Budget → ℕ → Trouble ⊎ ℕ
effective_timeout cap budget now =
    let left = remaining budget now in
    if ltb left 1000
    then inl (failed "brainstorm time budget exhausted")
    else inr (if leb (cap * 1000) left then cap else left / 1000)

module _ {ℓ} {V : Type ℓ} (codec : Codec) (s : Stage V) where
  -- The checkpoint is of this stage, with these inputs.
  abbrev pub is_same_stage : Checkpoint → Bool
  is_same_stage c =
      c.schema_version == checkpoint_schema_version
      && c.stage == s.kind
      && c.engine == s.engine
      && c.input_sha256 == s.input_sha256
      && c.output_path == output_path s.output_name

  -- `except ValueError: return None`
  abbrev pub validated_again : Value → Result V → Trouble ⊎ Option (Value × V)
  validated_again payload (ok v) = inr (some (payload, v))
  validated_again payload (err (value_error m)) = inr none
  validated_again payload (err e) = inl (unexpected e)

  abbrev pub reuse_payload : Option Value → Trouble ⊎ Option (Value × V)
  reuse_payload none = inr none
  reuse_payload (some payload) = validated_again payload (s.validate payload)

  -- An output without a document has other bytes than those that a checkpoint was written for.
  abbrev pub reuse_output : Checkpoint → Option (File String) → Trouble ⊎ Option (Value × V)
  reuse_output c (some (holds bytes)) =
      if codec.sha256 bytes == c.output_sha256 then reuse_payload (codec.loads bytes) else inr none
  reuse_output c found = inr none

  abbrev pub reuse_entry :
      Option (File Checkpoint) → Option (File String) → Trouble ⊎ Option (Value × V)
  reuse_entry none output = inr none
  reuse_entry (some unreadable) output = inl (failed "a checkpoint is unreadable or a symlink")
  reuse_entry (some corrupt) output = inl (failed "a checkpoint is corrupt")
  reuse_entry (some (holds c)) output = if is_same_stage c then reuse_output c output else inr none

  -- `_reuse_checkpoint`
  unfoldable pub reuse_checkpoint : Run → Trouble ⊎ Option (Value × V)
  unfolding lookup
  reuse_checkpoint run =
      reuse_entry (lookup (stage_name s) run.checkpoints) (lookup s.output_name run.outputs)
