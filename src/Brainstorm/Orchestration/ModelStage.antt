-- ===== src/Brainstorm/Orchestration/ModelStage.antt =====
-- `_model_stage` of hermes_controller/brainstorm.py: reuse, or calls of a model with bounded retries.
-- The environment gives each call of an attempt its clock reading and what the engine answers.
use dvk_claude.Common.{
  ℕ, zero, suc, ◌+◌, String, Option, none, some, List, [], ◌∷◌, ◌++◌, ◌==◌, ◌⊎◌, inl, inr, leb,
  member, if◌then◌else◌,
}
use dvk_claude.Common.Dict.{lookup, assign}
use dvk_claude.Json.{Value}
use dvk_claude.Result.{value_error, Result, ok, err}
use dvk_claude.Brainstorm.Orchestration.{
  max_stage_retries, max_total_retries, checkpoint_schema_version, Trouble, blocked, failed,
  unexpected, Budget, Checkpoint, holds, Run, Codec, Stage, stage_name, output_path, save_budget,
  effective_timeout, reuse_checkpoint,
}

-- What `execute_structured` does: a payload, a StructuredExecutionError, another exception; the first
-- two with lines of evidence.
pub data Response : Type 0 where
  structured : Value → List String → Response
  structured_error : String → List String → Response
  raises : Response

-- The n-th call of the attempt: the reading of the clock before it, and its answer.
pub record World : Type 0 where
  pub clock : ℕ → ℕ
  pub respond : ℕ → Response
  pub timeout_cap : ℕ

-- `exhausted` stands for a loop that goes on.
pub data Answer {ℓ} (V : Type ℓ) : Type ℓ where
  returned : Value → V → Answer V
  raised : Trouble → Answer V
  exhausted : Answer V

pub record Ended {ℓ} (V : Type ℓ) : Type ℓ where
  pub run : Run
  pub answer : Answer V

abbrev pub ended {ℓ} : {V : Type ℓ} → Run → Answer V → Ended V
ended run answer = record { run = run; answer = answer }

-- `validated_outputs.add(name)`, for a set.
abbrev pub add_name : String → List String → List String
add_name name names = if member name names then names else names ++ name ∷ []

abbrev pub complete : String → String → Run → Run
complete output stage run = record run {
  validated_outputs = add_name output run.validated_outputs;
  completed = run.completed ++ stage ∷ [];
}

abbrev pub add_evidence : List String → Run → Run
add_evidence lines run = record run { evidence = run.evidence ++ lines }

abbrev pub count_call : Run → Run
count_call run = save_budget (record run.budget { model_calls = run.budget.model_calls + 1 }) run

abbrev pub or_zero : Option ℕ → ℕ
or_zero none = 0
or_zero (some n) = n

abbrev pub retries_of : String → Budget → ℕ
retries_of stage budget = or_zero (lookup stage budget.stage_retries)

abbrev pub count_retry : String → Run → Run
count_retry stage run =
    save_budget
      (record run.budget {
        stage_retries = assign stage (retries_of stage run.budget + 1) run.budget.stage_retries;
        retries_used = run.budget.retries_used + 1;
      })
      run

abbrev pub engine_trouble : String → Trouble
engine_trouble status =
    if status == "BLOCKED" then blocked "the stage failed" else failed "the stage failed"

module _ {ℓ} {V : Type ℓ} (codec : Codec) (world : World) (s : Stage V) where
  abbrev pub checkpoint_of : String → Checkpoint
  checkpoint_of bytes = record {
    schema_version = checkpoint_schema_version;
    stage = s.kind;
    engine = s.engine;
    stage_name = stage_name s;
    input_sha256 = s.input_sha256;
    output_path = output_path s.output_name;
    output_sha256 = codec.sha256 bytes;
  }

  -- The output and its checkpoint are written, in this order.
  unfoldable pub publish : Value → Run → Run
  unfolding assign
  publish payload run = complete s.output_name (stage_name s) (record run {
    outputs = assign s.output_name (holds (codec.json_bytes payload)) run.outputs;
    checkpoints =
        assign (stage_name s) (holds (checkpoint_of (codec.json_bytes payload))) run.checkpoints;
  })

  -- May an output that is not valid be asked for again?
  abbrev pub retry_trouble : Run → Option Trouble
  retry_trouble run =
      if leb max_stage_retries (retries_of (stage_name s) run.budget)
      then some (failed "a stage returned invalid output after retry")
      else if leb max_total_retries run.budget.retries_used
      then some (failed "a stage returned invalid output and the retry budget is exhausted")
      else none

  abbrev pub retried : (Run → Ended V) → Run → Option Trouble → Ended V
  retried again heard (some trouble) = ended heard (raised trouble)
  retried again heard none = again (count_retry (stage_name s) heard)

  -- The answer of the engine, once it was validated.
  abbrev pub judged : (Run → Ended V) → Run → Value → Result V → Ended V
  judged again heard payload (ok v) = ended (publish payload heard) (returned payload v)
  judged again heard payload (err (value_error m)) = retried again heard (retry_trouble heard)
  judged again heard payload (err e) = ended heard (raised (unexpected e))

  abbrev pub answered : (Run → Ended V) → Run → Response → Ended V
  answered again called raises = ended called (raised (failed "the stage failed"))
  answered again called (structured_error status lines) =
      ended (add_evidence lines called) (raised (engine_trouble status))
  answered again called (structured payload lines) =
      judged again (add_evidence lines called) payload (s.validate payload)

  -- A call is counted, and the count saved, before it is made.
  abbrev pub timed : (Run → Ended V) → Run → Trouble ⊎ ℕ → Ended V
  timed again run (inl trouble) = ended run (raised trouble)
  timed again run (inr timeout) =
      answered again (count_call run) (world.respond run.budget.model_calls)

  -- The loop, on the number of calls that it may make.
  unfoldable pub call_model : ℕ → Run → Ended V
  unfolding effective_timeout publish
  call_model zero run = ended run exhausted
  call_model (suc fuel) run =
      timed (call_model fuel) run
        (effective_timeout world.timeout_cap run.budget (world.clock run.budget.model_calls))

  abbrev pub after_reuse : Run → Trouble ⊎ Option (Value × V) → Ended V
  after_reuse run (inl trouble) = ended run (raised trouble)
  after_reuse run (inr (some (payload, v))) =
      ended (complete s.output_name (stage_name s) run) (returned payload v)
  after_reuse run (inr none) = call_model (suc max_stage_retries) run

  -- `_model_stage`
  unfoldable pub model_stage : Run → Ended V
  unfolding reuse_checkpoint call_model
  model_stage run = after_reuse run (reuse_checkpoint codec s run)
