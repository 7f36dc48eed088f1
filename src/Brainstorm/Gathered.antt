-- ===== src/Brainstorm/Gathered.antt =====
-- The entries that `rank` orders: one for each candidate, with the scores that the engines gave it.
use mathlib.Core.List.{Perm}
use mathlib.Core.List.Perm
use dvk_claude.Common.{
  ℕ, ◌+◌, String, ◌≡◌, refl, sym, ap, ◌∙◌, subst, Option, none, some, List, [], ◌∷◌, ◌==◌, map,
  arith, sort, Bool-cases, inl, inr,
}
use dvk_claude.Common.All.{All, All-sort}
use dvk_claude.Common.Order.{sort-Perm}
use dvk_claude.Result.{ok, Ensures, Ensures-ok, Ensures-bind}
use dvk_claude.Brainstorm.Contract.{Criterion}
use dvk_claude.Brainstorm.Ranking.{
  Author, Scores, lookup, or_key, model_score, model_scores, RankedCandidate, difference, gather,
  better, number_from,
}

abbrev pub candidate_of : RankedCandidate → String × Author
candidate_of e = (e.candidate_id, e.author)

-- The weighted sum of what an evaluation gives the candidate.
abbrev pub IsScore : List Criterion → List (String × Scores) → String → ℕ → Type 0
IsScore rubric evaluation cid n =
    (scores : Scores) × (lookup cid evaluation ≡ some scores) × (model_score scores rubric ≡ ok n)

abbrev pub IsScored :
    List Criterion → List (String × Scores) → List (String × Scores) → RankedCandidate → Type 0
IsScored rubric claude_evaluation codex_evaluation e =
    IsScore rubric claude_evaluation e.candidate_id e.claude_score
    × IsScore rubric codex_evaluation e.candidate_id e.codex_score
    × (e.final_score ≡ e.claude_score + e.codex_score)
    × (e.disagreement ≡ difference e.claude_score e.codex_score)

abbrev AreScores : List Criterion → List (String × Scores) → List (String × ℕ) → Type 0
AreScores rubric evaluation totals =
    (cid : String) (n : ℕ) → lookup cid totals ≡ some n → IsScore rubric evaluation cid n

one_more-AreScores :
    (rubric : List Criterion) (id : String) (scores : Scores) (evaluation : List (String × Scores))
    (n : ℕ) (totals : List (String × ℕ))
    → model_score scores rubric ≡ ok n
    → AreScores rubric evaluation totals
    → AreScores rubric ((id, scores) ∷ evaluation) ((id, n) ∷ totals)
one_more-AreScores rubric id scores evaluation n totals e rest cid m h =
    elim (Bool-cases (id == cid)) [
      | inl q ↦ (scores, rw q refl, e ∙ ap ok (ground (arith, h, q)))
      | inr q ↦ let (s, f, g) = rest cid m (ground (arith, h, q)) in (s, rw q f, g)
    ]

pub model_scores-AreScores :
    (evaluation : List (String × Scores)) (rubric : List Criterion)
    → Ensures (AreScores rubric evaluation) (model_scores evaluation rubric)
unfolding model_scores
model_scores-AreScores [] rubric = Ensures-ok _ (λ cid n h. absurd cc)
model_scores-AreScores ((id, scores) ∷ rows) rubric = Ensures-bind _ _ λ rest r.
    Ensures-bind _ _ λ n e. Ensures-ok _ (
      one_more-AreScores rubric id scores rows n rest e
        ((model_scores-AreScores rows rubric).holds rest r))

map-number_from :
    (n : ℕ) (es : List RankedCandidate) → map candidate_of (number_from n es) ≡ map candidate_of es
unfolding number_from
map-number_from n [] = refl
map-number_from n (e ∷ es) = ap (λ xs. candidate_of e ∷ xs) (map-number_from (n + 1) es)

or_key-eq {ℓ} : {A : Type ℓ} (o : Option A) (a : A) → or_key o ≡ ok a → o ≡ some a
or_key-eq none a h = absurd cc
or_key-eq (some b) a h = cc

module _ (rubric : List Criterion)
    (claude_evaluation codex_evaluation : List (String × Scores)) where
  abbrev Scored : RankedCandidate → Type 0
  Scored = IsScored rubric claude_evaluation codex_evaluation

  -- One entry for each candidate.
  abbrev pub AreGathered : List (String × Author) → List RankedCandidate → Type 0
  AreGathered authors es = (map candidate_of es ≡ authors) × All Scored es

  pub gather-AreGathered :
      (authors : List (String × Author)) (claude_scores codex_scores : List (String × ℕ))
      → AreScores rubric claude_evaluation claude_scores
      → AreScores rubric codex_evaluation codex_scores
      → Ensures (AreGathered authors) (gather authors claude_scores codex_scores)
  unfolding gather
  gather-AreGathered [] claude_scores codex_scores c d = Ensures-ok _ (refl, tt)
  gather-AreGathered ((cid, author) ∷ rows) claude_scores codex_scores c d =
      Ensures-bind _ _ λ rest r. Ensures-bind _ _ λ a e. Ensures-bind _ _ λ b f.
        let (same, scored) =
          (gather-AreGathered rows claude_scores codex_scores c d).holds rest r in
        Ensures-ok _ (
          ap (λ xs. (cid, author) ∷ xs) same,
          ((c cid a (or_key-eq _ a e), d cid b (or_key-eq _ b f), refl, refl), scored),
        )

  number_from-Scored :
      (n : ℕ) (es : List RankedCandidate) → All Scored es → All Scored (number_from n es)
  unfolding number_from
  number_from-Scored n [] h = tt
  number_from-Scored n (e ∷ es) h = (h.0, number_from-Scored (n + 1) es h.1)

  -- The ranked entries are the candidates in another order, each with its scores.
  abbrev pub AreCandidates : List (String × Author) → List RankedCandidate → Type 0
  AreCandidates authors es = Perm (map candidate_of es) authors × All Scored es

  pub sorted-AreCandidates :
      (authors : List (String × Author)) (es : List RankedCandidate)
      → AreGathered authors es
      → AreCandidates authors (number_from 1 (sort better es))
  sorted-AreCandidates authors es (same, scored) = (
    subst (λ xs. Perm xs authors) (sym (map-number_from 1 (sort better es)))
        (subst (Perm (map candidate_of (sort better es))) same
          (Perm.map candidate_of (sort-Perm better es))),
    number_from-Scored 1 (sort better es) (All-sort Scored better es scored),
  )
