-- ===== src/Brainstorm/Materialized.antt =====
-- The configuration that brainstorm_contract.py builds into a task, read back.
use dvk_claude.Common.{
  OnSome, strip, ℕ, ◌≤◌, String, ◌≡◌, refl, true, false, Option, none, some, List, [], ◌∷◌, arith,
  length, all, member, distinct, eq_iff, eq_refl,
}
use dvk_claude.Common.All.{All}
use dvk_claude.Result.{ok, ◌>>=◌}
use dvk_claude.Json.{
  Value, string, integer, pos, array, object, Fields, field, end, get, has_all, to_list, truthy,
}
use dvk_claude.Brainstorm.Contract.{
  Criterion, bounded_text, bounded_int, criterion_id, exact_fields, validate_criterion,
  validate_criteria, validate_rubric, criterion_value, rubric_items, Config, criterion_eq,
  check_rubric_id, validate_brainstorm_config, build_brainstorm_config, rubric_eq,
  general_v1_rubric,
}
use dvk_claude.Brainstorm.Rubric.{validate_rubric-IsRubric, IsShortText, IsCriterion, IsRubric, ids}

bounded_text-ok :
    (limit : ℕ) (s : String) → IsShortText limit s → bounded_text limit (some (string s)) ≡ some s
unfolding bounded_text
bounded_text-ok limit s (b, l) = ground arith

bounded_int-ok :
    (lo hi n : ℕ) → lo ≤ n → n ≤ hi → bounded_int lo hi (some (integer (pos n))) ≡ some n
unfolding bounded_int
bounded_int-ok lo hi n l h = ground arith

validate_criterion-ok :
    (seen : List String) (c : Criterion)
    → IsCriterion c
    → member c.id seen ≡ false
    → validate_criterion seen (criterion_value c) ≡ ok c
unfolding validate_criterion criterion_value exact_fields criterion_id has_all get all member ◌>>=◌
validate_criterion-ok seen c (i, l, d, lo, hi) n = rw (
  i,
  n,
  bounded_text-ok 80 c.label l,
  bounded_text-ok 500 c.description d,
  bounded_int-ok 1 100 c.weight lo hi,
)

abbrev AreNew : List String → List String → Type 0
AreNew seen ss = (s : String) → member s seen ≡ true → member s ss ≡ false

first_new :
    (seen : List String) (s : String) (ss : List String)
    → AreNew seen (s ∷ ss)
    → member s seen ≡ false
unfolding member
first_new seen s ss f = ground (arith, f s, eq_refl s)

rest_new :
    (seen : List String) (s : String) (ss : List String)
    → member s ss ≡ false
    → AreNew seen (s ∷ ss)
    → AreNew (s ∷ seen) ss
unfolding member
rest_new seen s ss n f t h = ground (arith, f t, eq_iff s t)

first_absent : (s : String) (ss : List String) → distinct (s ∷ ss) ≡ true → member s ss ≡ false
unfolding distinct
first_absent s ss d = ground arith

rest_distinct : (s : String) (ss : List String) → distinct (s ∷ ss) ≡ true → distinct ss ≡ true
unfolding distinct
rest_distinct s ss d = ground arith

validate_criteria-ok :
    (seen : List String) (cs : List Criterion)
    → All IsCriterion cs
    → distinct (ids cs) ≡ true
    → AreNew seen (ids cs)
    → validate_criteria seen (to_list (rubric_items cs)) ≡ ok cs
unfolding validate_criteria rubric_items ◌>>=◌
validate_criteria-ok seen [] a d f = refl
validate_criteria-ok seen (c ∷ cs) (i, a) d f = rw (
  validate_criterion-ok seen c i (first_new seen c.id (ids cs) f),
  validate_criteria-ok (c.id ∷ seen) cs a (rest_distinct c.id (ids cs) d)
      (rest_new seen c.id (ids cs) (first_absent c.id (ids cs) d) f),
)

none_seen : (ss : List String) → AreNew [] ss
unfolding member
none_seen ss s h = cc

length-rubric_items : (cs : List Criterion) → length (to_list (rubric_items cs)) ≡ length cs
unfolding rubric_items
length-rubric_items [] = refl
length-rubric_items (c ∷ cs) = omega (arith, length-rubric_items cs)

-- `validate_rubric` accepts every such rubric as it is written out, and reads the same criteria.
pub validate_rubric-rubric_items :
    (cs : List Criterion) → IsRubric cs → validate_rubric (some (array (rubric_items cs))) ≡ ok cs
unfolding validate_rubric ◌>>=◌
validate_rubric-rubric_items cs (a, d, lo, hi, w) =
    rw (validate_criteria-ok [] cs a d (none_seen (ids cs)), length-rubric_items cs, w)
      (ground arith)

criterion_eq_refl : (c : Criterion) → criterion_eq c c ≡ true
criterion_eq_refl c = ground (arith, eq_refl c.id, eq_refl c.label, eq_refl c.description)

rubric_eq_refl : (cs : List Criterion) → rubric_eq cs cs ≡ true
unfolding rubric_eq
rubric_eq_refl [] = refl
rubric_eq_refl (c ∷ cs) = rw (criterion_eq_refl c, rubric_eq_refl cs) refl

general_v1_rubric-eq-ok :
    validate_rubric (some (array (rubric_items general_v1_rubric))) ≡ ok general_v1_rubric
unfolding validate_rubric rubric_items ◌>>=◌ strip
general_v1_rubric-eq-ok = refl

-- The default rubric meets the rules that it is checked against.
general_v1_rubric-IsRubric : IsRubric general_v1_rubric
general_v1_rubric-IsRubric = ((validate_rubric-IsRubric _).holds _ general_v1_rubric-eq-ok).1

-- The count of candidates and the rubric that are asked for, as they are written in a call.
abbrev pub written_count : Option ℕ → Option Value
written_count none = none
written_count (some n) = some (integer (pos n))

abbrev pub written_rubric : Option (List Criterion) → Option Value
written_rubric none = none
written_rubric (some cs) = some (array (rubric_items cs))

abbrev pub count_of : Option ℕ → ℕ
count_of none = 3
count_of (some n) = n

abbrev pub chosen : Option ℕ → Option (List Criterion) → Config
chosen count none = record {
  candidate_count = count_of count;
  rubric_id = "general-v1";
  rubric = general_v1_rubric;
}
chosen count (some cs) = record {
  candidate_count = count_of count;
  rubric_id = "custom";
  rubric = cs;
}

abbrev pub IsChoice : Option ℕ → Option (List Criterion) → Type 0
IsChoice count rubric = (2 ≤ count_of count) × (count_of count ≤ 6) × OnSome IsRubric rubric

abbrev block : ℕ → String → List Criterion → Fields
block n rubric_id cs = field "version" (string "brainstorm-v1") (
    field "candidate_count" (integer (pos n))
      (field "rubric_id" (string rubric_id) (field "rubric" (array (rubric_items cs)) end)))

block-ok :
    (n : ℕ) (rubric_id : String) (cs : List Criterion)
    → 2 ≤ n
    → n ≤ 6
    → IsRubric cs
    → check_rubric_id (block n rubric_id cs) cs ≡ ok rubric_id
    → validate_brainstorm_config (object (block n rubric_id cs))
      ≡ ok (record { candidate_count = n; rubric_id = rubric_id; rubric = cs })
unfolding validate_brainstorm_config exact_fields has_all get all member ◌>>=◌
block-ok n rubric_id cs lo hi r c =
    rw (bounded_int-ok 2 6 n lo hi, validate_rubric-rubric_items cs r, c)

general_block-ok :
    (n : ℕ)
    → 2 ≤ n
    → n ≤ 6
    → validate_brainstorm_config (object (block n "general-v1" general_v1_rubric))
      ≡ ok (record { candidate_count = n; rubric_id = "general-v1"; rubric = general_v1_rubric })
unfolding get
general_block-ok n lo hi =
    block-ok n "general-v1" general_v1_rubric lo hi general_v1_rubric-IsRubric
      (rw (rubric_eq_refl general_v1_rubric) refl)

custom_block-ok :
    (n : ℕ) (cs : List Criterion)
    → 2 ≤ n
    → n ≤ 6
    → IsRubric cs
    → validate_brainstorm_config (object (block n "custom" cs))
      ≡ ok (record { candidate_count = n; rubric_id = "custom"; rubric = cs })
unfolding get
custom_block-ok n cs lo hi r = block-ok n "custom" cs lo hi r refl

IsRubric-truthy : (cs : List Criterion) → IsRubric cs → truthy (array (rubric_items cs)) ≡ true
unfolding rubric_items
IsRubric-truthy [] (a, d, lo, h, w) = absurd (omega arith)
IsRubric-truthy (c ∷ cs) r = refl

-- For a count of 2 to 6 candidates (3 by default), and a rubric that meets the rules or none,
-- `build_brainstorm_config` returns a configuration, and `validate_brainstorm_config` accepts it and
-- reads the count and the rubric that were asked for, or the default rubric under its own name.
pub build_brainstorm_config-validate :
    (count : Option ℕ) (rubric : Option (List Criterion))
    → IsChoice count rubric
    → (config : Value) × (build_brainstorm_config (written_count count) (written_rubric rubric)
        ≡ ok config)
      × (validate_brainstorm_config config ≡ ok (chosen count rubric))
unfolding build_brainstorm_config ◌>>=◌
build_brainstorm_config-validate none none (lo, hi, r) =
    let v = general_block-ok 3 lo hi in (object (block 3 "general-v1" general_v1_rubric), rw v, v)
build_brainstorm_config-validate (some n) none (lo, hi, r) =
    let v = general_block-ok n lo hi in (object (block n "general-v1" general_v1_rubric), rw v, v)
build_brainstorm_config-validate none (some cs) (lo, hi, r) =
    let v = custom_block-ok 3 cs lo hi r in
    (object (block 3 "custom" cs), rw (IsRubric-truthy cs r, v), v)
build_brainstorm_config-validate (some n) (some cs) (lo, hi, r) =
    let v = custom_block-ok n cs lo hi r in
    (object (block n "custom" cs), rw (IsRubric-truthy cs r, v), v)
