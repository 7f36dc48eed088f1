-- ===== src/Brainstorm/Stages.antt =====
-- The validation of what the engines answer, of hermes_controller/brainstorm_core.py. A text of the
-- answer is measured and copied, and never read. Two proposals are duplicates if their canonical JSON
-- texts agree, which `same_json` decides.
use dvk_claude.Common.{
  ℕ, String, not, ◌&&◌, Option, some, List, [], ◌∷◌, ◌=?◌, leb, ltb, all, any, length, is_some,
  if◌then◌else◌,
}
use dvk_claude.Result.{Result, ok, err, value_error, ◌>>=◌, ◌>>◌, raise_if}
use dvk_claude.Json.{Value, null, array, object, Fields, end, field, get, get_or, to_list}
use dvk_claude.Json.Equality.{same_json}
use dvk_claude.Brainstorm.Contract.{exact_fields, bounded_text, or_raise}

-- A text field with its limit, and a list field with those of its length and of its items.
abbrev pub TextField : Type 0
TextField = String × ℕ

abbrev pub ListField : Type 0
ListField = String × ℕ × ℕ

abbrev pub proposal_texts : List TextField
proposal_texts =
    ("title", 120)
    ∷ ("concept", 2000)
    ∷ ("hook", 500)
    ∷ ("audience_flow", 1500)
    ∷ ("execution_plan", 2000)
    ∷ ("minimum_pilot", 1000)
    ∷ []

abbrev pub proposal_lists : List ListField
proposal_lists = ("dependencies", 10, 300) ∷ ("assumptions", 10, 300) ∷ ("risks", 10, 300) ∷ []

abbrev pub proposal_fields : List String
proposal_fields =
    "title" ∷ "concept" ∷ "hook" ∷ "audience_flow" ∷ "execution_plan" ∷ "dependencies"
    ∷ "assumptions" ∷ "risks" ∷ "minimum_pilot" ∷ []

abbrev pub text_names : List TextField → List String
text_names [] = []
text_names ((k, n) ∷ fs) = k ∷ text_names fs

abbrev pub list_names : List ListField → List String
list_names [] = []
list_names ((k, items, chars) ∷ fs) = k ∷ list_names fs

-- `_text` for each of the fields
unfoldable pub check_texts : List TextField → Fields → Result (Unit {0})
unfolding bounded_text get
check_texts [] fs = ok tt
check_texts ((k, limit) ∷ ks) fs = do
  _ ←
      or_raise (bounded_text limit (get k fs))
        "a field must be a non-empty string of bounded length"
  check_texts ks fs

-- `_text_list`
unfoldable pub check_list : ℕ → ℕ → Option Value → Result (Unit {0})
unfolding bounded_text all
check_list items chars (some (array vs)) = do
  raise_if (ltb items (length (to_list vs)))
      (value_error "a field must be a list of bounded length")
  raise_if (not (all (λ v. is_some (bounded_text chars (some v))) (to_list vs)))
      (value_error "items must be non-empty strings of bounded length")
check_list items chars v = err (value_error "a field must be a list of bounded length")

unfoldable pub check_lists : List ListField → Fields → Result (Unit {0})
unfolding check_list get
check_lists [] fs = ok tt
check_lists ((k, items, chars) ∷ ks) fs = do check_list items chars (get k fs); check_lists ks fs

-- The named fields, in the order of the names.
unfoldable pub copy_fields : List String → Fields → Fields
unfolding get_or
copy_fields [] fs = end
copy_fields (k ∷ ks) fs = field k (get_or k null fs) (copy_fields ks fs)

unfoldable pub validate_proposal : Value → Result Fields
unfolding exact_fields check_texts check_lists copy_fields
validate_proposal (object fs) = do
  raise_if (not (exact_fields proposal_fields fs))
      (value_error "proposal must have exactly its fields")
  check_texts proposal_texts fs
  check_lists proposal_lists fs
  ok (copy_fields proposal_fields fs)
validate_proposal v = err (value_error "proposal must have exactly its fields")

-- The loop of `validate_proposals`, with the proposals seen so far.
unfoldable pub proposals_from : List Fields → List Value → Result (List Fields)
unfolding validate_proposal any same_json
proposals_from seen [] = ok []
proposals_from seen (v ∷ vs) =
    let later = λ (s : List Fields). proposals_from s vs in
    validate_proposal v >>= λ p.
    raise_if (any (λ q. same_json (object q) (object p)) seen)
      (value_error "proposals stage returned a duplicate proposal")
    >> (later (p ∷ seen) >>= λ ps. ok (p ∷ ps))

abbrev proposal_list : ℕ → Option Value → Result (List Value)
proposal_list count (some (array vs)) =
    if length (to_list vs) =? count
    then ok (to_list vs)
    else err (value_error "proposals stage must return exactly the proposals")
proposal_list count v = err (value_error "proposals stage must return exactly the proposals")

unfoldable pub validate_proposals : ℕ → Value → Result (List Fields)
unfolding exact_fields proposals_from get
validate_proposals count (object fs) = do
  raise_if (not (leb 2 count && leb count 6)) (value_error "invalid candidate_count")
  raise_if (not (exact_fields ("proposals" ∷ []) fs))
      (value_error "proposals stage output must have exactly its field")
  items ← proposal_list count (get "proposals" fs)
  proposals_from [] items
validate_proposals count v =
    raise_if (not (leb 2 count && leb count 6)) (value_error "invalid candidate_count")
    >> err (value_error "proposals stage output must have exactly its field")
