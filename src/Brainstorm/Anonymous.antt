-- ===== src/Brainstorm/Anonymous.antt =====
-- `anonymize` of hermes_controller/brainstorm_core.py. `digest` stands for the SHA-256 hash of the
-- canonical JSON of the job, the author and the proposal.
use dvk_claude.Common.{
  ℕ, zero, suc, ◌+◌, String, Bool, true, false, not, ◌||◌, List, [], ◌∷◌, ◌++◌, ◌=?◌, ltb, codes,
  concat, distinct, is_empty, length, sort, text_lt, if◌then◌else◌,
}
use dvk_claude.Result.{Result, ok, value_error, ◌>>=◌, ◌>>◌, raise_if}
use dvk_claude.Json.{string, Fields, field}
use dvk_claude.Brainstorm.Contract.{exact_fields}
use dvk_claude.Brainstorm.Stages.{proposal_fields, copy_fields}
use dvk_claude.Brainstorm.Ranking.{Author, claude, codex}

-- Decimal digits, the last one first, and their successor.
abbrev increment : List ℕ → List ℕ
increment [] = 1 ∷ []
increment (d ∷ ds) = if d =? 9 then 0 ∷ increment ds else (d + 1) ∷ ds

abbrev digits : ℕ → List ℕ
digits zero = []
digits (suc n) = increment (digits n)

abbrev digit_text : ℕ → String
digit_text d =
    if d =? 0
    then "0"
    else if d =? 1
    then "1"
    else if d =? 2
    then "2"
    else if d =? 3
    then "3"
    else if d =? 4
    then "4"
    else if d =? 5
    then "5"
    else if d =? 6
    then "6"
    else if d =? 7
    then "7"
    else if d =? 8
    then "8"
    else "9"

abbrev text_of : String → List ℕ → String
text_of done [] = done
text_of done (d ∷ ds) = text_of (concat (digit_text d) done) ds

-- `f"C{index:02d}"`, for an index from 1 on
unfoldable pub candidate_name : ℕ → String
candidate_name n = concat "C" (padded (text_of "" (digits n)))
  where
    padded : String → String
    padded s = if ltb (length (codes s)) 2 then concat "0" s else s

pub record Keyed : Type 0 where
  pub key : String
  pub author : Author
  pub proposal : Fields

-- The proposals without their authors, and the authors by candidate.
pub record AnonymizedCandidates : Type 0 where
  pub bundle : List Fields
  pub authors : List (String × Author)

abbrev keys_of : List Keyed → List String
keys_of [] = []
keys_of (k ∷ ks) = k.key ∷ keys_of ks

unfoldable pub bundle_from : ℕ → List Keyed → List Fields
unfolding candidate_name
bundle_from n [] = []
bundle_from n (k ∷ ks) =
    field "candidate_id" (string (candidate_name n)) k.proposal ∷ bundle_from (n + 1) ks

unfoldable pub authors_from : ℕ → List Keyed → List (String × Author)
unfolding candidate_name
authors_from n [] = []
authors_from n (k ∷ ks) = (candidate_name n, k.author) ∷ authors_from (n + 1) ks

abbrev is_none : List Fields → Bool
is_none [] = true
is_none (p ∷ ps) = false

module _ (digest : String → Author → Fields → String) where
  unfoldable pub key_each : String → Author → List Fields → Result (List Keyed)
  unfolding exact_fields copy_fields
  key_each job_id author [] = ok []
  key_each job_id author (p ∷ ps) = do
    raise_if (not (exact_fields proposal_fields p))
        (value_error "proposal must have exactly its fields")
    let copied = copy_fields proposal_fields p
    rest ← key_each job_id author ps
    ok (record { key = digest job_id author copied; author = author; proposal = copied } ∷ rest)

  unfoldable pub anonymize : String → List Fields → List Fields → Result AnonymizedCandidates
  unfolding key_each distinct sort bundle_from authors_from
  anonymize job_id claude_proposals codex_proposals = do
    raise_if (is_empty job_id) (value_error "job_id is required for anonymization")
    raise_if (is_none claude_proposals || is_none codex_proposals)
        (value_error "anonymization requires proposals from both engines")
    first ← key_each job_id claude claude_proposals
    second ← key_each job_id codex codex_proposals
    raise_if (not (distinct (keys_of (first ++ second))))
        (value_error "duplicate proposal within one engine")
    let sorted = sort (λ a b. text_lt a.key b.key) (first ++ second)
    ok (record { bundle = bundle_from 1 sorted; authors = authors_from 1 sorted })
