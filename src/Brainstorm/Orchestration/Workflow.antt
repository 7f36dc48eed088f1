-- ===== src/Brainstorm/Orchestration/Workflow.antt =====
-- `_workflow` of hermes_controller/brainstorm.py, up to the decision: two engines propose, judge each
-- other's proposals without their authors, and the winner is refined by its author and validated by
-- the other engine. The report, its rendering and the fingerprint of the repository are left out.
use dvk_claude.Common.{ℕ, String, none, some, List, [], ◌∷◌, ◌++◌, concat, first}
use dvk_claude.Common.Dict.{lookup, assign}
use dvk_claude.Json.{Value, null, string, array, object, Items, nil, cons, Fields, get, is_given}
use dvk_claude.Result.{Result, ok, err, type_error, ◌>>=◌}
use dvk_claude.Brainstorm.Contract.{Criterion, rubric_items}
use dvk_claude.Brainstorm.Ranking.{
  Author, claude, codex, Scores, Ranking, or_key, rank, refiner_for, validator_for,
}
use dvk_claude.Brainstorm.Stages.{validate_proposals}
use dvk_claude.Brainstorm.Evaluations.{
  Evaluation, validate_evaluation, validate_refinement, Validation, validate_validation,
  Recommendation, decide,
}
use dvk_claude.Brainstorm.Anonymous.{AnonymizedCandidates, anonymize}
use dvk_claude.Brainstorm.Orchestration.{unexpected, holds, Run, Codec, Stage}
use dvk_claude.Brainstorm.Orchestration.ModelStage.{
  World, Answer, returned, raised, exhausted, Ended, ended, add_name, model_stage,
}

-- What stays the same in a run. `input_sha256` is the hash of a stage's name, of its inputs by name,
-- of the task and of the question; `document` is `_ranking_document`.
pub record Setup : Type 0 where
  pub codec : Codec
  pub world : World
  pub job_id : String
  pub candidate_count : ℕ
  pub rubric : List Criterion
  pub digest : String → Author → Fields → String
  pub input_sha256 : String → List (String × Value) → String
  pub evaluation_value : Evaluation → Value
  pub document : Ranking → Value

abbrev pub engine_name : Author → String
engine_name claude = "claude"
engine_name codex = "codex"

abbrev objects : List Fields → Items
objects [] = nil
objects (fs ∷ rest) = cons (object fs) (objects rest)

abbrev pub ids_of : List Fields → Result (List String)
ids_of [] = ok []
ids_of (fs ∷ rest) = elim (get "candidate_id" fs) [
  | some (string id) ↦ ids_of rest >>= λ ids. ok (id ∷ ids)
  | _ ↦ err type_error
]

abbrev scores_of : List (String × Evaluation) → List (String × Scores)
scores_of [] = []
scores_of ((id, e) ∷ rest) = (id, e.scores) ∷ scores_of rest

-- What a workflow decides.
pub record Decided : Type 0 where
  pub bundle : List Fields
  pub ranking : Ranking
  pub winner_id : String
  pub refiner : Author
  pub validator : Author
  pub refinement : Fields
  pub validation : Validation
  pub recommendation : Recommendation

-- The rest of a workflow behind a stage, and behind a step that may raise.
abbrev pub carry {ℓ κ} : {V : Type ℓ} {W : Type κ} → Run → Answer V → (Run → V → Ended W) → Ended W
carry run (returned payload v) rest = rest run v
carry run (raised trouble) rest = ended run (raised trouble)
carry run exhausted rest = ended run exhausted

-- Shut, so that a workflow keeps its shape in proofs.
unfoldable pub and_then {ℓ κ} : {V : Type ℓ} {W : Type κ} → Ended V → (Run → V → Ended W) → Ended W
and_then e rest = carry e.run e.answer rest

unfoldable pub step {ℓ κ} : {A : Type ℓ} {W : Type κ} → Run → Result A → (A → Ended W) → Ended W
step run (ok a) rest = rest a
step run (err e) rest = ended run (raised (unexpected e))

module _ (setup : Setup) where
  -- `_write_output`, and the name of the step.
  abbrev pub write_output : String → String → Value → Run → Run
  write_output name done value run = record run {
    outputs = assign name (holds (setup.codec.json_bytes value)) run.outputs;
    validated_outputs = add_name name run.validated_outputs;
    completed = run.completed ++ done ∷ [];
  }

  abbrev pub stage {ℓ} :
      {V : Type ℓ} → Author → String → String → List (String × Value) → (Value → Result V) → Stage V
  stage author kind output inputs validate = record {
    engine = engine_name author;
    kind = kind;
    output_name = output;
    input_sha256 = setup.input_sha256 (concat (concat (engine_name author) "-") kind) inputs;
    validate = validate;
  }

  abbrev pub ask {ℓ} : {V : Type ℓ} → Stage V → Run → Ended V
  ask s = model_stage setup.codec setup.world s

  abbrev pub rubric_input : String × Value
  rubric_input = ("rubric.json", array (rubric_items setup.rubric))

  abbrev pub proposals_stage : Author → Stage (List Fields)
  proposals_stage author =
      stage author "proposals" (concat (engine_name author) "-proposals.json") []
        (validate_proposals setup.candidate_count)

  abbrev pub evaluation_stage :
      Author → List Fields → List String → Stage (List (String × Evaluation))
  evaluation_stage author bundle ids =
      stage author "evaluation" (concat (engine_name author) "-evaluation.json")
        (("candidates-anonymized.json", array (objects bundle)) ∷ rubric_input ∷ [])
        (λ payload. validate_evaluation payload ids setup.rubric)

  abbrev pub refinement_stage : Author → String → Value → List Value → Stage Fields
  refinement_stage author winner_id winner critiques =
      stage author "refinement" "winner-refinement.json"
        (("winner.json", winner) ∷ ("critiques.json", array (values critiques)) ∷ rubric_input ∷ [])
        (λ payload. validate_refinement payload winner_id)
    where
      values : List Value → Items
      values [] = nil
      values (v ∷ vs) = cons v (values vs)

  abbrev pub validation_stage : Author → String → Fields → Stage Validation
  validation_stage author winner_id refinement =
      stage author "validation" "winner-validation.json"
        (("refined.json", object refinement) ∷ rubric_input ∷ [])
        (λ payload. validate_validation payload winner_id setup.rubric)

  -- `ranking.winner.candidate_id`
  abbrev pub winner_id_of : Ranking → Result String
  winner_id_of ranking = elim ranking.winner [ none ↦ err type_error | some w ↦ ok w.candidate_id ]

  abbrev pub winner_of_bundle : String → List Fields → Result Fields
  winner_of_bundle id bundle = elim (first (λ fs. is_given (get "candidate_id" fs) id) bundle) [
    | none ↦ err type_error
    | some fs ↦ ok fs
  ]

  abbrev pub decided :
      List Fields
      → Ranking
      → String
      → Author
      → Author
      → Fields
      → Validation
      → Recommendation
      → Decided
  decided bundle ranking winner_id refiner validator refinement validation recommendation = record {
    bundle = bundle;
    ranking = ranking;
    winner_id = winner_id;
    refiner = refiner;
    validator = validator;
    refinement = refinement;
    validation = validation;
    recommendation = recommendation;
  }

  -- Refinement and validation of the winner, and the decision.
  unfoldable pub finish :
      List Fields
      → List (String × Evaluation)
      → List (String × Evaluation)
      → Ranking
      → Run
      → Ended Decided
  finish bundle by_claude by_codex ranking run = step run (winner_id_of ranking) λ winner_id.
      step run (winner_of_bundle winner_id bundle) λ winner.
        step run (refiner_for ranking) λ refiner. step run (validator_for ranking) λ validator.
          step run (or_key (lookup winner_id by_claude)) λ first_critique.
            step run (or_key (lookup winner_id by_codex)) λ second_critique.
              let critiques =
                setup.evaluation_value first_critique
                ∷ setup.evaluation_value second_critique
                ∷ [] in
              and_then (ask (refinement_stage refiner winner_id (object winner) critiques) run)
                λ refined refinement.
                  and_then (ask (validation_stage validator winner_id refinement) refined)
                    λ validated validation.
                      step validated (decide (some validation)) λ recommendation. ended validated (
                        returned null (
                          decided bundle ranking winner_id refiner validator refinement validation
                            recommendation))

  -- The two evaluations, and the ranking.
  unfoldable pub evaluate : AnonymizedCandidates → Run → Ended Decided
  unfolding assign
  evaluate anonymous run =
      let normal =
        write_output "candidates-anonymized.json" "normalize" (array (objects anonymous.bundle))
          run in
      step normal (ids_of anonymous.bundle) λ ids.
        and_then (ask (evaluation_stage claude anonymous.bundle ids) normal) λ first_run by_claude.
          and_then (ask (evaluation_stage codex anonymous.bundle ids) first_run)
            λ second_run by_codex.
              step second_run
                (rank (scores_of by_claude) (scores_of by_codex) setup.rubric anonymous.authors)
                λ ranking.
                  finish anonymous.bundle by_claude by_codex ranking
                    (write_output "ranking.json" "rank" (setup.document ranking) second_run)

  -- `_workflow`: Codex proposes first.
  unfoldable pub workflow : Run → Ended Decided
  workflow run = and_then (ask (proposals_stage codex) run) λ codex_run codex_proposals.
      and_then (ask (proposals_stage claude) codex_run) λ claude_run claude_proposals.
        step claude_run (anonymize setup.digest setup.job_id claude_proposals codex_proposals)
          λ anonymous. evaluate anonymous claude_run
