-- ===== src/Github/Evidence.antt =====
-- What hermes_controller/github_api.py keeps of an answer of the GitHub API: the summaries that go
-- into the evidence of a result, and the checks of request arguments.
use dvk_claude.Common.{
  ℕ, suc, zero, String, Bool, false, ◌&&◌, ◌||◌, Option, none, some, List, [], ◌∷◌, ltb, any, codes,
  concat, is_blank, length, if◌then◌else◌,
}
use dvk_claude.Result.{Result, ok, err, value_error, type_error, ◌>>=◌}
use dvk_claude.Json.{
  pos, Value, null, integer, string, array, object, Items, nil, cons, Fields, end, field, get,
  get_or, to_list,
}
use dvk_claude.Github.{is_repo_name}

abbrev pub evidence_items_limit : ℕ
evidence_items_limit = 25

-- `{key: answer.get(key) for key in keys}`
unfoldable pub pick_keys : List String → Fields → Fields
unfolding get_or
pick_keys [] answer = end
pick_keys (k ∷ ks) answer = field k (get_or k null answer) (pick_keys ks answer)

-- `answer.get(key, {})`, on which `get` is called.
unfoldable pub nested : String → Fields → Result Fields
unfolding get
nested k answer = elim (get k answer) [
  | none ↦ ok end
  | some (object fs) ↦ ok fs
  | some v ↦ err type_error
]

abbrev append_fields : Fields → Fields → Fields
append_fields end gs = gs
append_fields (field k v fs) gs = field k v (append_fields fs gs)

unfoldable pub summarize_pull : Fields → Result Fields
unfolding pick_keys nested get_or
summarize_pull answer = do
  head ← nested "head" answer
  base ← nested "base" answer
  ok (
      append_fields (pick_keys ("number" ∷ "state" ∷ "draft" ∷ "html_url" ∷ []) answer) (
        field "head" (object (pick_keys ("ref" ∷ "sha" ∷ []) head))
          (field "base" (object (field "ref" (get_or "ref" null base) end)) end)))

-- `answer.get(key, [])`
unfoldable pub rows_of : String → Fields → Result (List Value)
unfolding get
rows_of k answer = elim (get k answer) [
  | none ↦ ok []
  | some (array vs) ↦ ok (to_list vs)
  | some v ↦ err type_error
]

-- `rows[:limit]`
abbrev pub take : ℕ → List Value → List Value
take zero vs = []
take (suc n) [] = []
take (suc n) (v ∷ vs) = v ∷ take n vs

-- A summary of each row, which must be an object.
unfoldable pub each_row : (Fields → Result Fields) → List Value → Result Items
each_row f [] = ok nil
each_row f (object row ∷ vs) = do
  summary ← f row
  rest ← each_row f vs
  ok (cons (object summary) rest)
each_row f (v ∷ vs) = err type_error

unfoldable pub summarize_row : Fields → Result Fields
unfolding nested get_or
summarize_row row = do
  head ← nested "head" row
  base ← nested "base" row
  ok (
      field "number" (get_or "number" null row) (
        field "url" (get_or "html_url" null row) (
          field "state" (get_or "state" null row) (
            field "head_ref" (get_or "ref" null head)
              (field "base_ref" (get_or "ref" null base) end)))))

unfoldable pub summarize_pr_list : Fields → Result Fields
unfolding rows_of each_row summarize_row
summarize_pr_list answer = do
  pulls ← rows_of "pull_requests" answer
  shown ← each_row summarize_row (take evidence_items_limit pulls)
  ok (field "count" (integer (pos (length pulls))) (field "pulls" (array shown) end))

abbrev pub run_keys : List String
run_keys =
    "id" ∷ "name" ∷ "head_sha" ∷ "status" ∷ "conclusion" ∷ "html_url" ∷ "created_at" ∷ "updated_at"
    ∷ []

unfoldable pub summarize_actions_status : Fields → Result Fields
unfolding rows_of each_row pick_keys get_or
summarize_actions_status answer = do
  runs ← rows_of "workflow_runs" answer
  shown ← each_row (λ row. ok (pick_keys run_keys row)) (take evidence_items_limit runs)
  ok (
      field "total_count" (get_or "total_count" (integer (pos (length runs))) answer)
        (field "runs" (array shown) end))

abbrev pub status_keys : List String
status_keys = "context" ∷ "state" ∷ "description" ∷ "target_url" ∷ "created_at" ∷ "updated_at" ∷ []

unfoldable pub summarize_commit_status : Fields → Result Fields
unfolding rows_of each_row pick_keys get_or
summarize_commit_status answer = do
  statuses ← rows_of "statuses" answer
  shown ← each_row (λ row. ok (pick_keys status_keys row)) (take evidence_items_limit statuses)
  ok (
      field "state" (get_or "state" null answer) (
        field "sha" (get_or "sha" null answer) (
          field "total_count" (get_or "total_count" (integer (pos (length statuses))) answer)
            (field "statuses" (array shown) end))))

-- `_repo`
unfoldable pub repo_path : Value → Value → Result String
unfolding is_repo_name
repo_path (string owner) (string repo) =
    if is_repo_name (codes owner) && is_repo_name (codes repo)
    then ok (concat "/repos/" (concat owner (concat "/" repo)))
    else err (value_error "invalid repository")
repo_path v w = err (value_error "invalid repository")

abbrev exceeds : Option ℕ → ℕ → Bool
exceeds none n = false
exceeds (some m) n = ltb m n

-- `_positive`, whose maximum is never 0
unfoldable pub positive : Option ℕ → Value → Result ℕ
positive maximum (integer (pos n)) =
    if ltb n 1 || exceeds maximum n then err (value_error "invalid positive integer") else ok n
positive maximum v = err (value_error "invalid positive integer")

-- `_text`
unfoldable pub printable_text : Value → Result String
unfolding any
printable_text (string s) =
    if is_blank s || any (λ c. ltb c 32) (codes s) then err (value_error "invalid text") else ok s
printable_text v = err (value_error "invalid text")
