-- ===== src/Brainstorm/Contract.antt =====
-- hermes_controller/brainstorm_contract.py. A validator returns what it has read: the source's
-- returns nothing, and the callers read the same fields again.
use dvk_claude.Common.{
  ℕ, ◌+◌, String, Bool, true, false, not, ◌&&◌, ◌||◌, Option, none, some, List, [], ◌∷◌, ◌==◌, ◌=?◌,
  leb, ltb, codes, is_digit, is_lower, is_blank, all, member, length, if◌then◌else◌,
}
use dvk_claude.Result.{Result, ok, err, value_error, ◌>>=◌, ◌>>◌, raise_if}
use dvk_claude.Json.{
  pos, Value, integer, string, array, object, Items, nil, cons, Fields, end, field, get, has_all,
  keys, to_list, truthy, is_given,
}

abbrev pub brainstorm_version : String
brainstorm_version = "brainstorm-v1"

abbrev pub default_candidate_count : ℕ
default_candidate_count = 3

abbrev pub general_v1_rubric_id : String
general_v1_rubric_id = "general-v1"

abbrev pub custom_rubric_id : String
custom_rubric_id = "custom"

abbrev pub config_fields : List String
config_fields = "version" ∷ "candidate_count" ∷ "rubric_id" ∷ "rubric" ∷ []

abbrev pub criterion_fields : List String
criterion_fields = "id" ∷ "label" ∷ "description" ∷ "weight" ∷ []

pub record Criterion : Type 0 where
  pub id : String
  pub label : String
  pub description : String
  pub weight : ℕ

-- `set(value) == set(fields)`
unfoldable pub exact_fields : List String → Fields → Bool
unfolding has_all all member
exact_fields names fs = has_all names fs && all (λ k. member k names) (keys fs)

-- A text that is not blank and has at most `limit` characters.
unfoldable pub bounded_text : ℕ → Option Value → Option String
bounded_text limit (some (string s)) =
    if is_blank s || ltb limit (length (codes s)) then none else some s
bounded_text limit v = none

-- An integer in a range, and no Boolean.
unfoldable pub bounded_int : ℕ → ℕ → Option Value → Option ℕ
bounded_int lo hi (some (integer (pos n))) = if leb lo n && leb n hi then some n else none
bounded_int lo hi v = none

-- `[a-z][a-z0-9_]{0,31}`
unfoldable pub is_criterion_id : List ℕ → Bool
unfolding is_digit is_lower all
is_criterion_id [] = false
is_criterion_id (c ∷ cs) =
    is_lower c && leb (length cs) 31 && all (λ d. is_lower d || is_digit d || d =? b'_') cs

unfoldable pub criterion_id : Option Value → Option String
unfolding is_criterion_id
criterion_id (some (string s)) = if is_criterion_id (codes s) then some s else none
criterion_id v = none

abbrev pub or_raise {ℓ} : {A : Type ℓ} → Option A → String → Result A
or_raise none m = err (value_error m)
or_raise (some a) m = ok a

-- The body of the loop of `_validate_rubric`, with the identifiers seen so far.
unfoldable pub validate_criterion : List String → Value → Result Criterion
unfolding exact_fields bounded_text bounded_int criterion_id member get
validate_criterion seen (object fs) = do
  raise_if (not (exact_fields criterion_fields fs))
      (value_error "brainstorm rubric criterion must have exactly its four fields")
  id ← or_raise (criterion_id (get "id" fs)) "brainstorm rubric criterion id is invalid"
  raise_if (member id seen) (value_error "brainstorm rubric criterion ids must be unique")
  label ← or_raise (bounded_text 80 (get "label" fs)) "brainstorm rubric criterion label is invalid"
  description ←
      or_raise (bounded_text 500 (get "description" fs))
        "brainstorm rubric criterion description is invalid"
  weight ←
      or_raise (bounded_int 1 100 (get "weight" fs))
        "brainstorm rubric criterion weight must be an integer between 1 and 100"
  ok (record { id = id; label = label; description = description; weight = weight })
validate_criterion seen v =
    err (value_error "brainstorm rubric criterion must have exactly its four fields")

unfoldable pub validate_criteria : List String → List Value → Result (List Criterion)
unfolding validate_criterion
validate_criteria seen [] = ok []
validate_criteria seen (v ∷ vs) =
    let later = λ (s : List String). validate_criteria s vs in
    validate_criterion seen v >>= λ c. later (c.id ∷ seen) >>= λ cs. ok (c ∷ cs)

unfoldable pub total_weight : List Criterion → ℕ
total_weight [] = 0
total_weight (c ∷ cs) = c.weight + total_weight cs

-- `validate_rubric`
unfoldable pub validate_rubric : Option Value → Result (List Criterion)
unfolding validate_criteria total_weight
validate_rubric (some (array vs)) = do
  raise_if (not (leb 3 (length (to_list vs)) && leb (length (to_list vs)) 10))
      (value_error "brainstorm rubric must contain between 3 and 10 criteria")
  rubric ← validate_criteria [] (to_list vs)
  raise_if (not (total_weight rubric =? 100))
      (value_error "brainstorm rubric weights must sum to exactly 100")
  ok rubric
validate_rubric v = err (value_error "brainstorm rubric must contain between 3 and 10 criteria")

abbrev pub criterion : String → String → String → ℕ → Criterion
criterion id label description weight = record {
  id = id;
  label = label;
  description = description;
  weight = weight;
}

abbrev pub general_v1_rubric : List Criterion
general_v1_rubric =
    criterion "value" "Value" "Expected value for the stated goal." 25
    ∷ criterion "originality" "Originality" "Useful differentiation and novelty." 15
    ∷ criterion "project_fit" "Project fit" "Fit with project, audience and constraints." 15
    ∷ criterion "feasibility" "Feasibility" "Technical and operational feasibility." 20
    ∷ criterion "repeatability" "Repeatability" "Potential to repeat or scale." 10
    ∷ criterion "evidence" "Evidence" "Availability of data, sources and assets." 10
    ∷ criterion "pilotability" "Pilotability" "Ease of validating with a small pilot." 5
    ∷ []

abbrev pub criterion_eq : Criterion → Criterion → Bool
criterion_eq a b =
    a.id == b.id && a.label == b.label && a.description == b.description && a.weight =? b.weight

unfoldable pub rubric_eq : List Criterion → List Criterion → Bool
rubric_eq [] [] = true
rubric_eq (a ∷ as') (b ∷ bs) = criterion_eq a b && rubric_eq as' bs
rubric_eq _ _ = false

pub record Config : Type 0 where
  pub candidate_count : ℕ
  pub rubric_id : String
  pub rubric : List Criterion

abbrev pub check_rubric_id : Fields → List Criterion → Result String
check_rubric_id fs rubric =
    if is_given (get "rubric_id" fs) general_v1_rubric_id
    then (if rubric_eq rubric general_v1_rubric
        then ok general_v1_rubric_id
        else err (value_error "brainstorm rubric does not match general-v1"))
    else if is_given (get "rubric_id" fs) custom_rubric_id
    then ok custom_rubric_id
    else err (value_error "unsupported brainstorm rubric_id")

unfoldable pub validate_brainstorm_config : Value → Result Config
unfolding exact_fields validate_rubric bounded_int rubric_eq get
validate_brainstorm_config (object fs) = do
  raise_if (not (exact_fields config_fields fs))
      (value_error "brainstorm config must have exactly its four fields")
  raise_if (not (is_given (get "version" fs) brainstorm_version))
      (value_error "unsupported brainstorm version")
  count ←
      or_raise (bounded_int 2 6 (get "candidate_count" fs))
        "brainstorm candidate_count must be an integer between 2 and 6"
  rubric ← validate_rubric (get "rubric" fs)
  rubric_id ← check_rubric_id fs rubric
  ok (record { candidate_count = count; rubric_id = rubric_id; rubric = rubric })
validate_brainstorm_config v =
    err (value_error "brainstorm config must have exactly its four fields")

-- A criterion as the object that a rubric lists.
unfoldable pub criterion_value : Criterion → Value
criterion_value c = object (
    field "id" (string c.id) (
      field "label" (string c.label)
        (field "description" (string c.description) (field "weight" (integer (pos c.weight)) end))))

unfoldable pub rubric_items : List Criterion → Items
unfolding criterion_value
rubric_items [] = nil
rubric_items (c ∷ cs) = cons (criterion_value c) (rubric_items cs)

abbrev pub chosen_count : Option Value → Value
chosen_count none = integer (pos default_candidate_count)
chosen_count (some v) = v

abbrev is_chosen : Option Value → Bool
is_chosen none = false
is_chosen (some v) = truthy v

abbrev pub chosen_rubric : Option Value → Value
chosen_rubric none = array (rubric_items general_v1_rubric)
chosen_rubric (some v) = if truthy v then v else array (rubric_items general_v1_rubric)

-- `build_brainstorm_config(candidate_count=..., rubric=...)`
unfoldable pub build_brainstorm_config : Option Value → Option Value → Result Value
unfolding rubric_items validate_brainstorm_config
build_brainstorm_config count rubric = do
  let config = object (
      field "version" (string brainstorm_version) (
        field "candidate_count" (chosen_count count) (
          field "rubric_id"
            (string (if is_chosen rubric then custom_rubric_id else general_v1_rubric_id))
            (field "rubric" (chosen_rubric rubric) end))))
  _ ← validate_brainstorm_config config
  ok config
