-- ===== src/Brainstorm/Orchestration/Tests.antt =====
-- The orchestration of the brainstorm engine at concrete inputs.
use dvk_claude.Common.{
  ℕ, zero, suc, ◌≤◌, ◌≡◌, ◌≢◌, refl, String, none, some, [], ◌∷◌, ◌==◌, if◌then◌else◌,
}
use dvk_claude.Common.Dict.{lookup, assign}
use dvk_claude.Json.{Value, null, string}
use dvk_claude.Result.{Result, ok, err, value_error, ◌>>=◌}
use dvk_claude.Brainstorm.Stages.{validate_proposals}
use dvk_claude.Brainstorm.Orchestration.{
  Run, Codec, Stage, effective_timeout, reuse_checkpoint, new_budget,
}
use dvk_claude.Brainstorm.Orchestration.ModelStage.{
  Response, structured, World, returned, exhausted, ended, complete, publish, call_model,
  model_stage,
}
use dvk_claude.Brainstorm.Orchestration.Workflow.{Setup, and_then, workflow}
use dvk_claude.Brainstorm.Orchestration.Calls.{workflow-bounded}
use dvk_claude.Brainstorm.Orchestration.Resumed.{model_stage-resumed}

-- Documents are texts, written as they are.
abbrev text_bytes : Value → String
text_bytes (string s) = s
text_bytes _ = ""

abbrev texts : Codec
texts = record { json_bytes = text_bytes; loads = λ s. some (string s); sha256 = λ s. s }

-- The first answer is refused, and each later one is accepted.
abbrev answers : ℕ → Response
answers zero = structured (string "draft") ("turn 1" ∷ [])
answers (suc n) = structured (string "final") ("turn 2" ∷ [])

abbrev world : World
world = record { clock = λ n. 100; respond = answers; timeout_cap = 300 }

-- No engine answers.
abbrev silent : World
silent = record { clock = λ n. 100; respond = λ n. Response.raises; timeout_cap = 300 }

abbrev accept_final : Value → Result String
accept_final (string s) = if s == "final" then ok s else err (value_error "not final")
accept_final _ = err (value_error "not a text")

abbrev refinement : Stage String
refinement = record {
  engine = "codex";
  kind = "refinement";
  output_name = "winner-refinement.json";
  input_sha256 = "5ad1";
  validate = accept_final;
}

abbrev fresh_run : Run
fresh_run = record {
  run_id = "run-1";
  attempt = 1;
  budget = new_budget "run-1" 1 1800 0;
  budget_file = none;
  checkpoints = [];
  outputs = [];
  evidence = [];
  validated_outputs = [];
  completed = [];
}

-- The files that the stage has left, in a new attempt.
abbrev resumed_run : Run
resumed_run = record fresh_run {
  attempt = 2;
  checkpoints = (model_stage texts world refinement fresh_run).run.checkpoints;
  outputs = (model_stage texts world refinement fresh_run).run.outputs;
}

final_answer :
    (model_stage texts world refinement fresh_run).answer ≡ returned (string "final") "final"
unfolding model_stage call_model effective_timeout reuse_checkpoint publish lookup assign
final_answer = refl

model_stage-resumed_example :
    model_stage texts silent refinement resumed_run
    ≡ ended
        (complete "winner-refinement.json" "codex-refinement" resumed_run)
        (returned (string "final") "final")
model_stage-resumed_example =
    model_stage-resumed texts refinement world fresh_run resumed_run silent (string "final") "final"
      final_answer refl refl refl

abbrev setup : Setup
setup = record {
  codec = texts;
  world = world;
  job_id = "job-1";
  candidate_count = 3;
  rubric = [];
  digest = λ job author fs. job;
  input_sha256 = λ name inputs. name;
  evaluation_value = λ e. null;
  document = λ r. null;
}

-- Proposals that are no document of proposals are asked for twice.
asked_twice : (workflow setup fresh_run).run.budget.model_calls ≡ 2
unfolding workflow and_then model_stage call_model effective_timeout reuse_checkpoint publish lookup
    assign validate_proposals ◌>>=◌
asked_twice = refl

workflow-bounded_example :
    ((workflow setup fresh_run).answer ≢ exhausted)
    × ((workflow setup fresh_run).run.budget.model_calls ≤ 8)
workflow-bounded_example = workflow-bounded setup fresh_run refl refl
