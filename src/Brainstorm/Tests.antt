-- ===== src/Brainstorm/Tests.antt =====
-- The contract of the brainstorm engine at concrete inputs.
use dvk_claude.Common.{ℕ, String, Option, none, some, ◌≡◌, ◌≤◌, refl, List, [], ◌∷◌, arith, strip}
use dvk_claude.Result.{Result, ok, err, ◌>>=◌, Ensures}
use dvk_claude.Json.{Value, pos, integer, string, array, nil, cons, object, field, end}
use dvk_claude.Brainstorm.Contract.{
  Criterion, criterion, validate_rubric, rubric_items, validate_brainstorm_config,
  build_brainstorm_config,
}
use dvk_claude.Brainstorm.Ranking.{Author, claude, codex, Scores, Ranking, names, model_score, rank}
use dvk_claude.Brainstorm.Winner.{IsRanked, IsClear, rank-IsRanked, rank-IsClear}
use dvk_claude.Brainstorm.Anonymous.{candidate_name}
use dvk_claude.Brainstorm.Evaluations.{validate_scores}
use dvk_claude.Brainstorm.Marks.{validate_scores-model_score}
use dvk_claude.Brainstorm.Rubric.{ids, IsRubric, IsListOf, validate_rubric-IsRubric}
use dvk_claude.Brainstorm.Materialized.{
  written_count, written_rubric, chosen, validate_rubric-rubric_items,
  build_brainstorm_config-validate,
}

abbrev three_criteria : List Criterion
three_criteria =
    criterion "value" "Value" "Expected value." 50
    ∷ criterion "cost" "Cost" "Effort and risk." 30
    ∷ criterion "time_2" "Time" "Time to a first result." 20
    ∷ []

three_read : validate_rubric (some (array (rubric_items three_criteria))) ≡ ok three_criteria
unfolding validate_rubric rubric_items ◌>>=◌ strip
three_read = refl

three-IsRubric : IsRubric three_criteria
three-IsRubric = ((validate_rubric-IsRubric _).holds three_criteria three_read).1

validate_rubric-IsRubric_example :
    Ensures
      (λ cs. IsListOf (some (array (rubric_items three_criteria))) cs × IsRubric cs)
      (validate_rubric (some (array (rubric_items three_criteria))))
validate_rubric-IsRubric_example =
    validate_rubric-IsRubric (some (array (rubric_items three_criteria)))

validate_rubric-rubric_items_example :
    validate_rubric (some (array (rubric_items three_criteria))) ≡ ok three_criteria
validate_rubric-rubric_items_example = validate_rubric-rubric_items three_criteria three-IsRubric

build_brainstorm_config-validate_example :
    (config : Value) × (build_brainstorm_config
        (written_count (some 4))
        (written_rubric (some three_criteria))
      ≡ ok config)
    × (validate_brainstorm_config config ≡ ok (chosen (some 4) (some three_criteria)))
build_brainstorm_config-validate_example =
    build_brainstorm_config-validate (some 4) (some three_criteria)
      (omega arith, omega arith, three-IsRubric)

abbrev scores : ℕ → ℕ → ℕ → Scores
scores value cost time = ("value", value) ∷ ("cost", cost) ∷ ("time_2", time) ∷ []

abbrev claude_view : List (String × Scores)
claude_view = ("C01", scores 9 8 9) ∷ ("C02", scores 5 6 7) ∷ []

abbrev codex_view : List (String × Scores)
codex_view = ("C02", scores 6 6 7) ∷ ("C01", scores 8 9 9) ∷ []

abbrev candidate_authors : List (String × Author)
candidate_authors = ("C01", codex) ∷ ("C02", claude) ∷ []

winner_is : Result Ranking → Option (String × ℕ)
winner_is (ok r) = elim r.winner [ none ↦ none | some w ↦ some (w.candidate_id, w.final_score) ]
winner_is (err e) = none

ranked :
    winner_is (rank claude_view codex_view three_criteria candidate_authors) ≡ some ("C01", 1720)
unfolding winner_is rank rubric_items ◌>>=◌ strip
ranked = refl

rank-IsRanked_example :
    Ensures
      (IsRanked claude_view codex_view three_criteria candidate_authors)
      (rank claude_view codex_view three_criteria candidate_authors)
rank-IsRanked_example = rank-IsRanked claude_view codex_view three_criteria candidate_authors

rank-IsClear_example :
    Ensures IsClear (rank claude_view codex_view three_criteria candidate_authors)
rank-IsClear_example = rank-IsClear claude_view codex_view three_criteria candidate_authors

abbrev mark : String → ℕ → Value
mark id n = object (field "criterion_id" (string id) (field "score" (integer (pos n)) end))

abbrev marks : Option Value
marks = some (array (cons (mark "time_2" 3) (cons (mark "value" 9) (cons (mark "cost" 10) nil))))

marks_read : validate_scores marks three_criteria ≡ ok (scores 9 10 3)
unfolding validate_scores rubric_items ◌>>=◌ strip
marks_read = refl

validate_scores-model_score_example :
    Ensures
      (λ s.
        (names s ≡ ids three_criteria)
        × ((t : ℕ) × (model_score s three_criteria ≡ ok t) × (t ≤ 1000)))
      (validate_scores marks three_criteria)
validate_scores-model_score_example =
    validate_scores-model_score marks three_criteria three-IsRubric

candidate_names : candidate_name 3 ∷ candidate_name 12 ∷ [] ≡ "C03" ∷ "C12" ∷ []
unfolding candidate_name
candidate_names = refl
