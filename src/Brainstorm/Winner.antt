-- ===== src/Brainstorm/Winner.antt =====
-- What the ranking of brainstorm_core.py guarantees of the order, the winner and the confidence.
use dvk_claude.Common.{
  ℕ, ◌+◌, ◌≤◌, String, ◌≡◌, refl, true, false, some, List, [], ◌∷◌, arith, OnSome, ◌*◌, ◌<◌, keep,
  not, length,
}
use dvk_claude.Common.All.{All}
use dvk_claude.Common.TextOrder.{text_lt-asym, text_lt_trans}
use dvk_claude.Common.Order.{IsSorted, sort-IsSorted}
use dvk_claude.Result.{Ensures, Ensures-ok, Ensures-bind}
use dvk_claude.Brainstorm.Contract.{Criterion}
use dvk_claude.Brainstorm.Gathered.{
  AreCandidates, model_scores-AreScores, gather-AreGathered, sorted-AreCandidates,
}
use dvk_claude.Brainstorm.Ranking.{
  Author, Scores, RankedCandidate, better, number_from, Ranking, ranking_of, rank, high,
  base_confidence, winner_of, author_eq, total, score_by, is_biased, self_preference,
}

better-asym : (a b : RankedCandidate) → better a b ≡ true → better b a ≡ false
unfolding better
better-asym a b h = ground (arith, text_lt-asym a.candidate_id b.candidate_id)

better_trans : (a b c : RankedCandidate) → better a b ≡ true → better b c ≡ true → better a c ≡ true
unfolding better
better_trans a b c h k = ground (arith, text_lt_trans a.candidate_id b.candidate_id c.candidate_id)

better_irrefl : (a : RankedCandidate) → better a a ≡ false
better_irrefl a = ground (arith, better-asym a a)

-- The ranks count the entries from `n` on.
abbrev pub IsNumbered : ℕ → List RankedCandidate → Type 0
IsNumbered n [] = Unit
IsNumbered n (e ∷ es) = (e.rank ≡ n) × IsNumbered (n + 1) es

number_from-IsNumbered : (n : ℕ) (es : List RankedCandidate) → IsNumbered n (number_from n es)
unfolding number_from
number_from-IsNumbered n [] = tt
number_from-IsNumbered n (e ∷ es) = (refl, number_from-IsNumbered (n + 1) es)

number_from-All :
    (n : ℕ) (a : RankedCandidate) (es : List RankedCandidate)
    → All (λ e. better e a ≡ false) es
    → All (λ e. better e a ≡ false) (number_from n es)
unfolding number_from better
number_from-All n a [] h = tt
number_from-All n a (e ∷ es) (h, hs) = (h, number_from-All (n + 1) a es hs)

number_from-IsSorted :
    (n : ℕ) (es : List RankedCandidate) → IsSorted better es → IsSorted better (number_from n es)
unfolding number_from better
number_from-IsSorted n [] s = tt
number_from-IsSorted n (e ∷ es) (h, s) =
    (number_from-All (n + 1) e es h, number_from-IsSorted (n + 1) es s)

winner-best :
    (es : List RankedCandidate)
    → IsSorted better es
    → OnSome (λ w. All (λ e. better e w ≡ false) es) (winner_of es)
winner-best [] s = tt
winner-best (w ∷ es) (h, s) = (better_irrefl w, h)

-- In order, numbered from 1, and the winner is bettered by none.
abbrev pub InOrder : Ranking → Type 0
InOrder r =
    IsSorted better r.entries
    × IsNumbered 1 r.entries
    × OnSome (λ w. All (λ e. better e w ≡ false) r.entries) r.winner

-- The candidates, each once and with its scores, in their order.
abbrev pub IsRanked :
    List (String × Scores)
    → List (String × Scores)
    → List Criterion
    → List (String × Author)
    → Ranking
    → Type 0
IsRanked claude_evaluation codex_evaluation rubric authors r =
    AreCandidates rubric claude_evaluation codex_evaluation authors r.entries × InOrder r

-- The entries of a ranking are the candidates of `authors`, each as often as there, with its author.
-- The score of an engine is the weighted sum of what its evaluation gives the candidate, the final
-- score is their sum, and the disagreement their difference. `rank` orders the entries by a higher
-- final score, then a lower disagreement, then a lower identifier, and numbers them from 1; no entry
-- stands before the winner in this order.
pub rank-IsRanked :
    (claude_evaluation codex_evaluation : List (String × Scores)) (rubric : List Criterion)
    (authors : List (String × Author))
    → Ensures
        (IsRanked claude_evaluation codex_evaluation rubric authors)
        (rank claude_evaluation codex_evaluation rubric authors)
unfolding rank ranking_of
rank-IsRanked claude_evaluation codex_evaluation rubric authors = Ensures-bind _ _ λ _ _.
    Ensures-bind _ _ λ _ _. Ensures-bind _ _ λ _ _. Ensures-bind _ _ λ claude_scores c.
      Ensures-bind _ _ λ codex_scores d. Ensures-bind _ _ λ gathered g.
        let of_claude = (model_scores-AreScores claude_evaluation rubric).holds claude_scores c in
        let of_codex = (model_scores-AreScores codex_evaluation rubric).holds codex_scores d in
        let all_there =
          (gather-AreGathered rubric claude_evaluation codex_evaluation authors claude_scores
              codex_scores of_claude of_codex).holds
            gathered g in
        let s = number_from-IsSorted 1 _ (sort-IsSorted better better-asym better_trans gathered) in
        Ensures-ok _ (
          sorted-AreCandidates rubric claude_evaluation codex_evaluation authors gathered all_there,
          (s, number_from-IsNumbered 1 _, winner-best _ s),
        )

abbrev own : Author → List RankedCandidate → List RankedCandidate
own author = keep (λ e. author_eq e.author author)

abbrev others : Author → List RankedCandidate → List RankedCandidate
others author = keep (λ e. not (author_eq e.author author))

-- The mean of the scores that an engine gave its own candidates is less than 100 tenths above the mean
-- of those it gave the others, when there are both; the fractions are multiplied out.
abbrev pub IsUnbiased : Author → List RankedCandidate → Type 0
IsUnbiased author es =
    1 ≤ length (own author es)
    → 1 ≤ length (others author es)
    → total (own author es) (score_by author) * length (others author es)
      < total (others author es) (score_by author) * length (own author es)
        + 100 * (length (own author es) * length (others author es))

unbiased :
    (author : Author) (es : List RankedCandidate)
    → is_biased (self_preference author es) ≡ false
    → IsUnbiased author es
unfolding self_preference
unbiased author es h one another = ground (arith, h, one, another)

abbrev pub IsClear : Ranking → Type 0
IsClear r =
    (r.confidence ≡ high)
    → (w : RankedCandidate) × (m : ℕ) × (r.winner ≡ some w)
      × (r.margin ≡ some m)
      × (1500 ≤ w.final_score)
      × (w.disagreement ≤ 100)
      × (100 ≤ m)
      × IsUnbiased w.author r.entries

ranking_of-IsClear : (es : List RankedCandidate) → IsClear (ranking_of es)
unfolding ranking_of base_confidence
ranking_of-IsClear [] h = absurd (ground arith)
ranking_of-IsClear (w ∷ []) h = absurd (ground arith)
ranking_of-IsClear (w ∷ r ∷ es) h = (
  w,
  _,
  refl,
  refl,
  ground arith,
  ground arith,
  ground arith,
  unbiased w.author (w ∷ r ∷ es) (ground arith),
)

-- A ranking of high confidence has a winner with a final score of 75 or more, a disagreement of at
-- most 10 and a margin of 5 or more, whose author does not favour its own candidates by 10 or more.
pub rank-IsClear :
    (claude_evaluation codex_evaluation : List (String × Scores)) (rubric : List Criterion)
    (authors : List (String × Author))
    → Ensures IsClear (rank claude_evaluation codex_evaluation rubric authors)
unfolding rank
rank-IsClear claude_evaluation codex_evaluation rubric authors = Ensures-bind _ _ λ _ _.
    Ensures-bind _ _ λ _ _. Ensures-bind _ _ λ _ _. Ensures-bind _ _ λ _ _.
      Ensures-bind _ _ λ _ _. Ensures-bind _ _ λ gathered _. Ensures-ok _ (ranking_of-IsClear _)
