-- ===== src/Brainstorm/Ranking.antt =====
-- The ranking of hermes_controller/brainstorm_core.py. The source computes with exact fractions; here
-- a model score and a disagreement are counted in tenths and a final score or a margin in twentieths,
-- so that each is a natural number, and a difference of means keeps its totals and counts.
use dvk_claude.Common.{
  ℕ, ◌+◌, ◌-◌, ◌*◌, String, Bool, true, false, not, ◌&&◌, ◌||◌, Option, none, some, List, [], ◌∷◌,
  ◌==◌, ◌=?◌, ltb, leb, text_lt, all, keep, length, member, sort, if◌then◌else◌,
}
use dvk_claude.Result.{Result, ok, err, value_error, key_error, ◌>>=◌, ◌>>◌, raise_if}
use dvk_claude.Json.{array}
use dvk_claude.Brainstorm.Contract.{Criterion, validate_rubric, rubric_items}

pub data Author : Type 0 where
  claude codex : Author

abbrev pub author_eq : Author → Author → Bool
author_eq claude claude = true
author_eq codex codex = true
author_eq _ _ = false

-- A dict from texts, in the order of its insertions.
abbrev pub lookup {ℓ} : {A : Type ℓ} → String → List (String × A) → Option A
lookup k [] = none
lookup k ((j, a) ∷ rows) = if j == k then some a else lookup k rows

abbrev pub names {ℓ} : {A : Type ℓ} → List (String × A) → List String
names [] = []
names ((k, a) ∷ rows) = k ∷ names rows

-- `set(a) == set(b)` of the keys
unfoldable pub same_names : List String → List String → Bool
unfolding all member
same_names as' bs = all (λ k. member k bs) as' && all (λ k. member k as') bs

-- Scores from 0 to 10 by criterion.
abbrev pub Scores : Type 0
Scores = List (String × ℕ)

abbrev pub or_key {ℓ} : {A : Type ℓ} → Option A → Result A
or_key none = err key_error
or_key (some a) = ok a

-- `model_score`, in tenths: the sum of score times weight.
unfoldable pub model_score : Scores → List Criterion → Result ℕ
model_score scores [] = ok 0
model_score scores (c ∷ cs) = do
  rest ← model_score scores cs
  score ← or_key (lookup c.id scores)
  ok (score * c.weight + rest)

unfoldable pub model_scores : List (String × Scores) → List Criterion → Result (List (String × ℕ))
unfolding model_score
model_scores [] rubric = ok []
model_scores ((cid, scores) ∷ rows) rubric = do
  rest ← model_scores rows rubric
  score ← model_score scores rubric
  ok ((cid, score) ∷ rest)

pub record RankedCandidate : Type 0 where
  pub rank : ℕ
  pub candidate_id : String
  pub author : Author
  pub claude_score : ℕ
  pub codex_score : ℕ
  pub final_score : ℕ
  pub disagreement : ℕ

abbrev pub difference : ℕ → ℕ → ℕ
difference a b = (a - b) + (b - a)

abbrev pub unranked : String → Author → ℕ → ℕ → RankedCandidate
unranked cid author a b = record {
  rank = 0;
  candidate_id = cid;
  author = author;
  claude_score = a;
  codex_score = b;
  final_score = a + b;
  disagreement = difference a b;
}

unfoldable pub gather :
    List (String × Author) → List (String × ℕ) → List (String × ℕ) → Result (List RankedCandidate)
gather [] claude_scores codex_scores = ok []
gather ((cid, author) ∷ rows) claude_scores codex_scores = do
  rest ← gather rows claude_scores codex_scores
  a ← or_key (lookup cid claude_scores)
  b ← or_key (lookup cid codex_scores)
  ok (unranked cid author a b ∷ rest)

-- The sort key: a higher final score, then a lower disagreement, then a lower identifier.
unfoldable pub better : RankedCandidate → RankedCandidate → Bool
better a b =
    ltb b.final_score a.final_score
    || (a.final_score =? b.final_score
        && (ltb a.disagreement b.disagreement
            || (a.disagreement =? b.disagreement && text_lt a.candidate_id b.candidate_id)))

-- `enumerate(..., start=...)`
unfoldable pub number_from : ℕ → List RankedCandidate → List RankedCandidate
number_from n [] = []
number_from n (e ∷ es) = record e { rank = n } ∷ number_from (n + 1) es

-- The mean of the scores for one's own candidates less that for the others.
pub record Preference : Type 0 where
  pub own_total : ℕ
  pub own_count : ℕ
  pub other_total : ℕ
  pub other_count : ℕ

abbrev pub total : List RankedCandidate → (RankedCandidate → ℕ) → ℕ
total [] f = 0
total (e ∷ es) f = f e + total es f

abbrev pub score_by : Author → RankedCandidate → ℕ
score_by claude e = e.claude_score
score_by codex e = e.codex_score

unfoldable pub self_preference : Author → List RankedCandidate → Option Preference
unfolding keep
self_preference author entries =
    let own = keep (λ e. author_eq e.author author) entries in
    let other = keep (λ e. not (author_eq e.author author)) entries in
    if length own =? 0 || length other =? 0
    then none
    else some (record {
      own_total = total own (score_by author);
      own_count = length own;
      other_total = total other (score_by author);
      other_count = length other;
    })

-- A mean difference of 10 points or more: `own / n - other / m >= 100` in tenths.
abbrev pub is_biased : Option Preference → Bool
is_biased none = false
is_biased (some p) =
    leb (p.other_total * p.own_count + 100 * (p.own_count * p.other_count))
      (p.own_total * p.other_count)

pub data Confidence : Type 0 where
  high medium low : Confidence

abbrev wide_margin : Option ℕ → Bool
wide_margin none = false
wide_margin (some m) = leb 100 m

-- `_base_confidence`: 75, 10 and 5 points, then 65 and 20.
unfoldable pub base_confidence : Option RankedCandidate → Option ℕ → Confidence
base_confidence none margin = low
base_confidence (some w) margin =
    if leb 1500 w.final_score && leb w.disagreement 100 && wide_margin margin
    then high
    else if leb 1300 w.final_score && leb w.disagreement 200
    then medium
    else low

pub record Ranking : Type 0 where
  pub entries : List RankedCandidate
  pub winner : Option RankedCandidate
  pub runner_up : Option RankedCandidate
  pub margin : Option ℕ
  pub base : Confidence
  pub confidence : Confidence
  pub claude_preference : Option Preference
  pub codex_preference : Option Preference
  pub self_preference_flag : Bool

abbrev pub winner_of : List RankedCandidate → Option RankedCandidate
winner_of [] = none
winner_of (w ∷ es) = some w

abbrev pub runner_up_of : List RankedCandidate → Option RankedCandidate
runner_up_of (w ∷ r ∷ es) = some r
runner_up_of es = none

abbrev pub margin_of : List RankedCandidate → Option ℕ
margin_of (w ∷ r ∷ es) = some (w.final_score - r.final_score)
margin_of es = none

abbrev capped : Bool → Confidence → Confidence
capped true high = medium
capped flag c = c

abbrev preference_of : Author → List RankedCandidate → Option Preference
preference_of author entries = self_preference author entries

abbrev flag_of : List RankedCandidate → Bool
flag_of [] = false
flag_of (w ∷ es) = is_biased (preference_of w.author (w ∷ es))

unfoldable pub ranking_of : List RankedCandidate → Ranking
unfolding base_confidence self_preference
ranking_of entries = record {
  entries = entries;
  winner = winner_of entries;
  runner_up = runner_up_of entries;
  margin = margin_of entries;
  base = base_confidence (winner_of entries) (margin_of entries);
  confidence = capped (flag_of entries) (base_confidence (winner_of entries) (margin_of entries));
  claude_preference = preference_of claude entries;
  codex_preference = preference_of codex entries;
  self_preference_flag = flag_of entries;
}

-- `rank`; the type of the authors leaves out the check that each is one of the two.
unfoldable pub rank :
    List (String × Scores)
    → List (String × Scores)
    → List Criterion
    → List (String × Author)
    → Result Ranking
unfolding validate_rubric same_names model_scores gather better sort number_from ranking_of
rank claude_evaluation codex_evaluation rubric authors = do
  _ ← validate_rubric (some (array (rubric_items rubric)))
  raise_if (not (same_names (names claude_evaluation) (names codex_evaluation)))
      (value_error "claude and codex evaluations must cover the same candidates")
  raise_if (not (same_names (names authors) (names claude_evaluation)))
      (value_error "authors must map every candidate to claude or codex")
  claude_scores ← model_scores claude_evaluation rubric
  codex_scores ← model_scores codex_evaluation rubric
  gathered ← gather authors claude_scores codex_scores
  ok (ranking_of (number_from 1 (sort better gathered)))

-- `refiner_for`: the winner's author; `validator_for`: the other engine.
unfoldable pub refiner_for : Ranking → Result Author
refiner_for r = elim r.winner [
  | none ↦ err (value_error "ranking has no winner to refine")
  | some w ↦ ok w.author
]

abbrev pub other_author : Author → Author
other_author claude = codex
other_author codex = claude

unfoldable pub validator_for : Ranking → Result Author
unfolding refiner_for
validator_for r = refiner_for r >>= λ author. ok (other_author author)
