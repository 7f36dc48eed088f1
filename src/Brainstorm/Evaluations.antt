-- ===== src/Brainstorm/Evaluations.antt =====
-- The evaluations that the engines answer, of hermes_controller/brainstorm_core.py.
use dvk_claude.Common.{
  ℕ, String, Bool, false, not, ◌&&◌, Option, none, some, List, [], ◌∷◌, ◌++◌, ◌==◌, ◌=?◌, codes,
  is_digit, all, member, distinct, is_some, text_lt, sort, if◌then◌else◌,
}
use dvk_claude.Result.{Result, ok, err, value_error, ◌>>=◌, ◌>>◌, raise_if}
use dvk_claude.Json.{Value, string, array, object, Fields, field, get, to_list}
use dvk_claude.Brainstorm.Contract.{
  Criterion, exact_fields, bounded_int, or_raise, validate_rubric, rubric_items,
}
use dvk_claude.Brainstorm.Ranking.{lookup, names, Scores}
use dvk_claude.Brainstorm.Stages.{
  TextField, ListField, text_names, list_names, check_texts, check_lists, copy_fields,
}

abbrev pub evaluation_lists : List ListField
evaluation_lists =
    ("strengths", 10, 500)
    ∷ ("weaknesses", 10, 500)
    ∷ ("improvements", 10, 500)
    ∷ ("constraint_violations", 10, 500)
    ∷ []

abbrev pub refinement_texts : List TextField
refinement_texts =
    ("title", 120)
    ∷ ("concept", 4000)
    ∷ ("pilot_definition", 2000)
    ∷ ("success_criterion", 1000)
    ∷ []

abbrev pub refinement_lists : List ListField
refinement_lists =
    ("decisions_adopted", 10, 500)
    ∷ ("discarded_elements", 10, 500)
    ∷ ("accepted_risks", 10, 500)
    ∷ []

abbrev pub validation_lists : List ListField
validation_lists = ("material_findings", 10, 1000) ∷ []

-- `C[0-9]{2}`
unfoldable pub is_candidate_id : List ℕ → Bool
unfolding is_digit
is_candidate_id (c ∷ d ∷ e ∷ []) = c =? b'C' && is_digit d && is_digit e
is_candidate_id cs = false

unfoldable pub candidate_id : Option Value → Result String
unfolding is_candidate_id
candidate_id (some (string s)) =
    if is_candidate_id (codes s) then ok s else err (value_error "invalid candidate_id")
candidate_id v = err (value_error "invalid candidate_id")

abbrev criterion_name : Option Value → Result String
criterion_name (some (string s)) = ok s
criterion_name v = err (value_error "criterion_id must be a string")

-- One entry of `_scores`, with what was found before.
unfoldable pub score_entry : Scores → Value → Result (String × ℕ)
unfolding exact_fields bounded_int get
score_entry found (object fs) = do
  raise_if (not (exact_fields ("criterion_id" ∷ "score" ∷ []) fs))
      (value_error "score entry must have exactly its fields")
  id ← criterion_name (get "criterion_id" fs)
  raise_if (is_some (lookup id found)) (value_error "duplicate criterion")
  score ← or_raise (bounded_int 0 10 (get "score" fs)) "score must be an integer between 0 and 10"
  ok (id, score)
score_entry found v = err (value_error "score entry must have exactly its fields")

unfoldable pub score_entries : Scores → List Value → Result Scores
unfolding score_entry
score_entries found [] = ok found
score_entries found (v ∷ vs) =
    let later = λ (s : Scores). score_entries s vs in score_entry found v >>= λ e. later (e ∷ found)

-- The scores in the order of the rubric; each criterion must have one.
unfoldable pub in_rubric_order : List Criterion → Scores → Result Scores
in_rubric_order [] found = ok []
in_rubric_order (c ∷ cs) found =
    let rest = in_rubric_order cs found in
    elim (lookup c.id found) [
      | none ↦ err (value_error "scores must cover exactly the rubric criteria")
      | some n ↦ rest >>= λ others. ok ((c.id, n) ∷ others)
    ]

abbrev criterion_ids : List Criterion → List String
criterion_ids [] = []
criterion_ids (c ∷ cs) = c.id ∷ criterion_ids cs

abbrev entry_list : Option Value → Result (List Value)
entry_list (some (array vs)) = ok (to_list vs)
entry_list v = err (value_error "a field must be a list")

-- `_scores`
unfoldable pub validate_scores : Option Value → List Criterion → Result Scores
unfolding validate_rubric score_entries in_rubric_order all member
validate_scores entries rubric = do
  _ ← validate_rubric (some (array (rubric_items rubric)))
  items ← entry_list entries
  found ← score_entries [] items
  raise_if (not (all (λ k. member k (criterion_ids rubric)) (names found)))
      (value_error "scores must cover exactly the rubric criteria")
  in_rubric_order rubric found

pub record Evaluation : Type 0 where
  pub scores : Scores
  pub lists : Fields

unfoldable pub evaluation_entry :
    List String → List Criterion → List (String × Evaluation) → Value → Result (String × Evaluation)
unfolding exact_fields candidate_id member validate_scores check_lists copy_fields get
evaluation_entry expected rubric validated (object fs) = do
  raise_if (not (exact_fields ("candidate_id" ∷ "scores" ∷ list_names evaluation_lists) fs))
      (value_error "evaluation must have exactly its fields")
  id ← candidate_id (get "candidate_id" fs)
  raise_if (not (member id expected)) (value_error "evaluation references an unknown candidate")
  raise_if (is_some (lookup id validated)) (value_error "evaluation has a duplicate candidate")
  scores ← validate_scores (get "scores" fs) rubric
  check_lists evaluation_lists fs
  ok (id, record { scores = scores; lists = copy_fields (list_names evaluation_lists) fs })
evaluation_entry expected rubric validated v =
    err (value_error "evaluation must have exactly its fields")

unfoldable pub evaluation_entries :
    List String
    → List Criterion
    → List (String × Evaluation)
    → List Value
    → Result (List (String × Evaluation))
unfolding evaluation_entry
evaluation_entries expected rubric validated [] = ok validated
evaluation_entries expected rubric validated (v ∷ vs) =
    let later = λ (s : List (String × Evaluation)). evaluation_entries expected rubric s vs in
    evaluation_entry expected rubric validated v >>= λ e. later (e ∷ validated)

unfoldable pub check_ids : List String → Result (Unit {0})
unfolding candidate_id
check_ids [] = ok tt
check_ids (s ∷ ss) = do _ ← candidate_id (some (string s)); check_ids ss

unfoldable pub validate_evaluation :
    Value → List String → List Criterion → Result (List (String × Evaluation))
unfolding check_ids distinct validate_rubric exact_fields evaluation_entries all sort get
validate_evaluation payload expected rubric = do
  check_ids expected
  raise_if (not (distinct expected)) (value_error "expected candidate IDs must be unique")
  _ ← validate_rubric (some (array (rubric_items rubric)))
  items ← listed payload
  validated ← evaluation_entries expected rubric [] items
  raise_if (not (all (λ k. is_some (lookup k validated)) expected))
      (value_error "evaluation is missing candidates")
  ok (sort (λ a b. text_lt a.0 b.0) validated)
  where
    listed : Value → Result (List Value)
    listed (object fs) =
        if exact_fields ("evaluations" ∷ []) fs
        then entry_list (get "evaluations" fs)
        else err (value_error "evaluation stage output must have exactly its field")
    listed v = err (value_error "evaluation stage output must have exactly its field")

unfoldable pub validate_refinement : Value → String → Result Fields
unfolding exact_fields candidate_id check_texts check_lists copy_fields get
validate_refinement (object fs) winner_id = do
  raise_if
      (not (
        exact_fields ("candidate_id" ∷ text_names refinement_texts ++ list_names refinement_lists)
          fs))
      (value_error "refinement must have exactly its fields")
  id ← candidate_id (get "candidate_id" fs)
  raise_if (not (id == winner_id)) (value_error "refinement must reference the winner candidate")
  check_texts refinement_texts fs
  check_lists refinement_lists fs
  ok (
      field "candidate_id" (string winner_id)
        (copy_fields (text_names refinement_texts ++ list_names refinement_lists) fs))
validate_refinement v winner_id = err (value_error "refinement must have exactly its fields")

pub record Validation : Type 0 where
  pub candidate_id : String
  pub verdict : String
  pub scores : Scores
  pub lists : Fields

unfoldable pub verdict_of : Option Value → Result String
unfolding member
verdict_of (some (string s)) =
    if member s ("PASS" ∷ "FAIL" ∷ [])
    then ok s
    else err (value_error "validation verdict must be PASS or FAIL")
verdict_of v = err (value_error "validation verdict must be PASS or FAIL")

unfoldable pub validate_validation : Value → String → List Criterion → Result Validation
unfolding exact_fields candidate_id verdict_of validate_scores check_lists copy_fields get
validate_validation (object fs) winner_id rubric = do
  raise_if
      (not (exact_fields ("candidate_id" ∷ "verdict" ∷ "scores" ∷ list_names validation_lists) fs))
      (value_error "validation must have exactly its fields")
  id ← candidate_id (get "candidate_id" fs)
  raise_if (not (id == winner_id)) (value_error "validation must reference the winner candidate")
  verdict ← verdict_of (get "verdict" fs)
  scores ← validate_scores (get "scores" fs) rubric
  check_lists validation_lists fs
  ok (record {
    candidate_id = winner_id;
    verdict = verdict;
    scores = scores;
    lists = copy_fields (list_names validation_lists) fs;
  })
validate_validation v winner_id rubric = err (value_error "validation must have exactly its fields")

pub data Recommendation : Type 0 where
  recommended_for_pilot inconclusive : Recommendation

-- `decide`, on a validation that was validated.
unfoldable pub decide : Option Validation → Result Recommendation
decide none = ok inconclusive
decide (some v) =
    if v.verdict == "PASS"
    then ok recommended_for_pilot
    else if v.verdict == "FAIL"
    then ok inconclusive
    else err (value_error "validation verdict must be PASS or FAIL")
