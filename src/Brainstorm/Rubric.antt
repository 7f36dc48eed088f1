-- ===== src/Brainstorm/Rubric.antt =====
-- Which rubrics and configurations the contract of brainstorm_contract.py accepts.
use dvk_claude.Common.{
  ℕ, ◌≤◌, String, ◌≡◌, refl, true, false, Option, none, some, List, [], ◌∷◌, arith, codes, is_blank,
  length, member, distinct, eq_iff, eq_refl, ap, suc,
}
use dvk_claude.Common.All.{All}
use dvk_claude.Result.{ok, raise_if-eq-ok, Ensures, Ensures-ok, Ensures-err, Ensures-bind}
use dvk_claude.Json.{Value, string, integer, pos, array, object, Items, Fields, get, to_list}
use dvk_claude.Brainstorm.Contract.{
  Criterion, exact_fields, criterion_fields, bounded_text, bounded_int, criterion_id,
  is_criterion_id, or_raise, validate_criterion, validate_criteria, validate_rubric, total_weight,
}

abbrev pub IsShortText : ℕ → String → Type 0
IsShortText limit s = (is_blank s ≡ false) × (length (codes s) ≤ limit)

abbrev pub IsCriterion : Criterion → Type 0
IsCriterion c =
    (is_criterion_id (codes c.id) ≡ true)
    × IsShortText 80 c.label
    × IsShortText 500 c.description
    × (1 ≤ c.weight)
    × (c.weight ≤ 100)

abbrev pub ids : List Criterion → List String
ids [] = []
ids (c ∷ cs) = c.id ∷ ids cs

-- Between three and ten criteria with different identifiers, whose weights sum to 100.
abbrev pub IsRubric : List Criterion → Type 0
IsRubric cs =
    All IsCriterion cs
    × (distinct (ids cs) ≡ true)
    × (3 ≤ length cs)
    × (length cs ≤ 10)
    × (total_weight cs ≡ 100)

or_raise-eq {ℓ} :
    {A : Type ℓ} (o : Option A) (m : String) (a : A) → or_raise o m ≡ ok a → o ≡ some a
or_raise-eq none m a h = cc
or_raise-eq (some b) m a h = cc

bounded_text-IsShortText :
    (limit : ℕ) (v : Option Value) (s : String)
    → bounded_text limit v ≡ some s
    → IsShortText limit s
unfolding bounded_text
bounded_text-IsShortText limit (some (string t)) s h = (ground arith, ground arith)
bounded_text-IsShortText limit none s h = cc
bounded_text-IsShortText limit (some v) s h = cc

bounded_int-range :
    (lo hi : ℕ) (v : Option Value) (n : ℕ) → bounded_int lo hi v ≡ some n → (lo ≤ n) × (n ≤ hi)
unfolding bounded_int
bounded_int-range lo hi none n h = cc
bounded_int-range lo hi (some (integer (pos m))) n h = (ground arith, ground arith)
bounded_int-range lo hi (some v) n h = cc

criterion_id-valid :
    (v : Option Value) (s : String) → criterion_id v ≡ some s → is_criterion_id (codes s) ≡ true
unfolding criterion_id
criterion_id-valid (some (string t)) s h = ground arith
criterion_id-valid none s h = cc
criterion_id-valid (some v) s h = cc

-- The value is an object with the four fields of the criterion, and no other.
abbrev pub IsRead : Value → Criterion → Type 0
IsRead v c =
    (fs : Fields) × (v ≡ object fs)
    × (exact_fields criterion_fields fs ≡ true)
    × (get "id" fs ≡ some (string c.id))
    × (get "label" fs ≡ some (string c.label))
    × (get "description" fs ≡ some (string c.description))
    × (get "weight" fs ≡ some (integer (pos c.weight)))

abbrev pub AreRead : List Value → List Criterion → Type 0
AreRead [] [] = Unit
AreRead (v ∷ vs) (c ∷ cs) = IsRead v c × AreRead vs cs
AreRead _ _ = ⊥

-- The rubric, as it is given, is a list of these criteria.
abbrev pub IsListOf : Option Value → List Criterion → Type 0
IsListOf given cs = (vs : Items) × (given ≡ some (array vs)) × AreRead (to_list vs) cs

bounded_text-given :
    (limit : ℕ) (v : Option Value) (s : String)
    → bounded_text limit v ≡ some s
    → v ≡ some (string s)
unfolding bounded_text
bounded_text-given limit (some (string t)) s h = ground (arith, h)
bounded_text-given limit none s h = cc
bounded_text-given limit (some v) s h = cc

bounded_int-given :
    (lo hi : ℕ) (v : Option Value) (n : ℕ)
    → bounded_int lo hi v ≡ some n
    → v ≡ some (integer (pos n))
unfolding bounded_int
bounded_int-given lo hi none n h = cc
bounded_int-given lo hi (some (integer (pos m))) n h = ground (arith, h)
bounded_int-given lo hi (some v) n h = cc

criterion_id-given : (v : Option Value) (s : String) → criterion_id v ≡ some s → v ≡ some (string s)
unfolding criterion_id
criterion_id-given (some (string t)) s h = ground (arith, h)
criterion_id-given none s h = cc
criterion_id-given (some v) s h = cc

-- What is read is a criterion, and its identifier is new.
abbrev IsNew : List String → Value → Criterion → Type 0
IsNew seen v c = IsCriterion c × (member c.id seen ≡ false) × IsRead v c

validate_criterion-IsNew :
    (seen : List String) (v : Value) → Ensures (IsNew seen v) (validate_criterion seen v)
unfolding validate_criterion
validate_criterion-IsNew seen (object fs) = Ensures-bind _ _ λ _ x. Ensures-bind _ _ λ id i.
    Ensures-bind _ _ λ _ n. Ensures-bind _ _ λ label l. Ensures-bind _ _ λ description d.
      Ensures-bind _ _ λ weight w.
        let range = bounded_int-range 1 100 (get "weight" fs) weight (or_raise-eq _ _ weight w) in
        Ensures-ok _ (
          (
            criterion_id-valid (get "id" fs) id (or_raise-eq _ _ id i),
            bounded_text-IsShortText 80 (get "label" fs) label (or_raise-eq _ _ label l),
            bounded_text-IsShortText 500 (get "description" fs) description
                (or_raise-eq _ _ description d),
            range.0,
            range.1,
          ),
          raise_if-eq-ok _ _ n,
          (
            fs,
            refl,
            ground (arith, raise_if-eq-ok _ _ x),
            criterion_id-given (get "id" fs) id (or_raise-eq _ _ id i),
            bounded_text-given 80 (get "label" fs) label (or_raise-eq _ _ label l),
            bounded_text-given 500 (get "description" fs) description
                (or_raise-eq _ _ description d),
            bounded_int-given 1 100 (get "weight" fs) weight (or_raise-eq _ _ weight w),
          ),
        )
validate_criterion-IsNew seen v = Ensures-err _

-- The criteria of the rest of a rubric: their identifiers are new and differ.
abbrev AllNew : List String → List Value → List Criterion → Type 0
AllNew seen vs cs =
    All IsCriterion cs
    × (distinct (ids cs) ≡ true)
    × ((s : String) → member s seen ≡ true → member s (ids cs) ≡ false)
    × (length cs ≡ length vs)
    × AreRead vs cs

new_criterion :
    (seen : List String) (v : Value) (vs : List Value) (c : Criterion) (cs : List Criterion)
    → IsNew seen v c
    → AllNew (c.id ∷ seen) vs cs
    → AllNew seen (v ∷ vs) (c ∷ cs)
unfolding distinct member
new_criterion seen v vs c cs (i, n, x) (a, d, f, l, y) = (
  (i, a),
  ground (arith, f c.id, eq_refl c.id),
  λ s m. ground (arith, f s, eq_iff c.id s),
  ap suc l,
  (x, y),
)

validate_criteria-AllNew :
    (seen : List String) (vs : List Value) → Ensures (AllNew seen vs) (validate_criteria seen vs)
unfolding validate_criteria distinct member
validate_criteria-AllNew seen [] = Ensures-ok _ (tt, refl, (λ s m. refl), refl, tt)
validate_criteria-AllNew seen (v ∷ vs) =
    let later = λ (s : List String). validate_criteria-AllNew s vs in
    Ensures-bind _ _ λ c e. Ensures-bind _ _ λ cs f. Ensures-ok _ (
      new_criterion seen v vs c cs ((validate_criterion-IsNew seen v).holds c e)
        ((later (c.id ∷ seen)).holds cs f))

-- A rubric that `validate_rubric` accepts is a list of from three to ten objects. Each has exactly the
-- four fields of a criterion: a well-formed identifier, a label and a description that are not blank
-- and not too long, and a weight from 1 to 100. The identifiers differ, and the weights sum to 100.
pub validate_rubric-IsRubric :
    (given : Option Value) → Ensures (λ cs. IsListOf given cs × IsRubric cs) (validate_rubric given)
unfolding validate_rubric
validate_rubric-IsRubric (some (array vs)) = Ensures-bind _ _ λ _ l. Ensures-bind _ _ λ cs e.
    Ensures-bind _ _ λ _ w.
      let (a, d, f, n, x) = (validate_criteria-AllNew [] (to_list vs)).holds cs e in
      let bounds = raise_if-eq-ok _ _ l in
      Ensures-ok _
        ((vs, refl, x), (a, d, ground arith, ground arith, ground (arith, raise_if-eq-ok _ _ w)))
validate_rubric-IsRubric none = Ensures-err _
validate_rubric-IsRubric (some v) = Ensures-err _
