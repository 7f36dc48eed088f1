-- ===== src/Brainstorm/Marks.antt =====
-- The scores that are accepted are complete, and give each candidate a score of at most 100.
use dvk_claude.Common.{
  ℕ, ◌+◌, ◌*◌, ◌≤◌, String, ◌≡◌, ◌≢◌, refl, sym, subst, ap, true, Option, none, some, List, [], ◌∷◌,
  arith, member, eq_refl, Option-cases, inl, inr,
}
use native.Mathlib.Nat.{mul-le-mul_right}
use dvk_claude.Common.All.{All}
use dvk_claude.Result.{ok, ◌>>=◌, Ensures, Ensures-ok, Ensures-err, Ensures-bind}
use dvk_claude.Json.{Value, integer, pos, object, get}
use dvk_claude.Brainstorm.Contract.{Criterion, bounded_int, or_raise, total_weight}
use dvk_claude.Brainstorm.Rubric.{ids, IsRubric}
use dvk_claude.Brainstorm.Ranking.{lookup, names, Scores, model_score}
use dvk_claude.Brainstorm.Evaluations.{score_entry, score_entries, in_rubric_order, validate_scores}

mul_le : (n w : ℕ) → n ≤ 10 → n * w ≤ 10 * w
mul_le n w h = mul-le-mul_right w h

-- Every score is at most 10.
abbrev pub AreSmall : Scores → Type 0
AreSmall scores = All (λ e. e.1 ≤ 10) scores

lookup-small :
    (k : String) (scores : Scores) (n : ℕ) → AreSmall scores → lookup k scores ≡ some n → n ≤ 10
lookup-small k [] n h e = cc
lookup-small k ((j, m) ∷ rows) n (h, hs) e = ground (arith, lookup-small k rows n hs)

lookup-named :
    (k : String) (scores : Scores) → member k (names scores) ≡ true → lookup k scores ≢ none
unfolding member
lookup-named k [] h = cc
lookup-named k ((j, m) ∷ rows) h = ground (arith, lookup-named k rows)

abbrev AreNamed : Scores → List Criterion → Type 0
AreNamed scores cs = All (λ c. member c.id (names scores) ≡ true) cs

-- With a score for each criterion, the model score is defined and bounded by the weights.
model_score-bounded :
    (scores : Scores) (cs : List Criterion)
    → AreSmall scores
    → AreNamed scores cs
    → (t : ℕ) × (model_score scores cs ≡ ok t) × (t ≤ 10 * total_weight cs)
unfolding model_score total_weight ◌>>=◌
model_score-bounded scores [] small named = (0, refl, omega arith)
model_score-bounded scores (c ∷ cs) small (h, named) =
    let (t, e, b) = model_score-bounded scores cs small named in
    elim (Option-cases (lookup c.id scores)) [
      | inl f ↦ absurd (lookup-named c.id scores h f)
      | inr (n, f) ↦ (
        n * c.weight + t,
        rw (e, f) refl,
        omega (arith, b, mul_le n c.weight (lookup-small c.id scores n small f)),
      )
    ]

bounded_int-small :
    (v : Option Value) (m : String) (n : ℕ) → or_raise (bounded_int 0 10 v) m ≡ ok n → n ≤ 10
unfolding bounded_int
bounded_int-small none m n h = cc
bounded_int-small (some (integer (pos k))) m n h = ground arith
bounded_int-small (some v) m n h = cc

score_entry-small : (found : Scores) (v : Value) → Ensures (λ e. e.1 ≤ 10) (score_entry found v)
unfolding score_entry
score_entry-small found (object fs) = Ensures-bind _ _ λ _ _. Ensures-bind _ _ λ id _.
    Ensures-bind _ _
      λ _ _. Ensures-bind _ _ λ score s. Ensures-ok _ (bounded_int-small (get "score" fs) _ score s)
score_entry-small found v = Ensures-err _

score_entries-AreSmall :
    (found : Scores) (vs : List Value) → AreSmall found → Ensures AreSmall (score_entries found vs)
unfolding score_entries
score_entries-AreSmall found [] h = Ensures-ok _ h
score_entries-AreSmall found (v ∷ vs) h =
    let later = λ (s : Scores). score_entries-AreSmall s vs in
    Ensures-bind _ _ λ e f. later (e ∷ found) ((score_entry-small found v).holds e f, h)

-- The scores name the criteria of the rubric, in its order.
in_rubric_order-ids :
    (cs : List Criterion) (found : Scores)
    → AreSmall found
    → Ensures (λ s. (names s ≡ ids cs) × AreSmall s) (in_rubric_order cs found)
unfolding in_rubric_order
in_rubric_order-ids [] found h = Ensures-ok _ (refl, tt)
in_rubric_order-ids (c ∷ cs) found h =
    let rest = in_rubric_order-ids cs found h in
    elim (Option-cases (lookup c.id found)) [
      | inl f ↦ rw (f, in_rubric_order) (Ensures-err _)
      | inr (n, f) ↦
          rw (f, in_rubric_order)
            (Ensures-bind _ _ λ others e.
              let (p, q) = rest.holds others e in
              Ensures-ok _ (ap (λ ks. c.id ∷ ks) p, (lookup-small c.id found n h f, q)))
    ]

ids-AreNamed :
    (scores : Scores) (cs : List Criterion)
    → ((k : String) → member k (ids cs) ≡ true → member k (names scores) ≡ true)
    → AreNamed scores cs
unfolding member
ids-AreNamed scores [] f = tt
ids-AreNamed scores (c ∷ cs) f =
    (f c.id (ground (arith, eq_refl c.id)), ids-AreNamed scores cs (λ k h. f k (ground (arith, h))))

-- Scores that are accepted for a rubric that meets the rules name its criteria in order; they have a
-- model score, and it is at most 100 (1000 tenths).
pub validate_scores-model_score :
    (entries : Option Value) (rubric : List Criterion)
    → IsRubric rubric
    → Ensures
        (λ s. (names s ≡ ids rubric) × ((t : ℕ) × (model_score s rubric ≡ ok t) × (t ≤ 1000)))
        (validate_scores entries rubric)
unfolding validate_scores
validate_scores-model_score entries rubric r = Ensures-bind _ _ λ _ _. Ensures-bind _ _ λ items _.
    Ensures-bind _ _ λ found f. Ensures-bind _ _ λ _ _. (record {
      holds = λ s e.
          let small = (score_entries-AreSmall [] items tt).holds found f in
          let (named, h) = (in_rubric_order-ids rubric found small).holds s e in
          let (t, m, b) =
            model_score-bounded s rubric h
              (ids-AreNamed s rubric (λ k q. subst (λ ks. member k ks ≡ true) (sym named) q)) in
          (named, (t, m, omega (arith, b, r.4)));
    })
