-- ===== src/Github/Bounded.antt =====
-- The summaries of github_api.py are short, and count what they leave out.
use dvk_claude.Common.{ℕ, suc, zero, ◌≤◌, String, ◌≡◌, refl, ap, some, List, [], ◌∷◌, length, arith}
use dvk_claude.Result.{Result, ok, Ensures, Ensures-ok, Ensures-err, Ensures-bind}
use dvk_claude.Json.{pos, Value, integer, array, object, Items, Fields, get, to_list}
use dvk_claude.Github.Evidence.{take, each_row, rows_of, summarize_row, summarize_pr_list}

length-take : (n : ℕ) (vs : List Value) → length (take n vs) ≤ n
length-take zero vs = omega arith
length-take (suc n) [] = omega arith
length-take (suc n) (v ∷ vs) = omega (arith, length-take n vs)

length-each_row :
    (f : Fields → Result Fields) (vs : List Value)
    → Ensures (λ items. length (to_list items) ≡ length vs) (each_row f vs)
unfolding each_row
length-each_row f [] = Ensures-ok _ refl
length-each_row f (object row ∷ vs) = Ensures-bind _ _ λ summary _.
    Ensures-bind _ _ λ rest e. Ensures-ok _ (omega (arith, (length-each_row f vs).holds rest e))
length-each_row f (v ∷ vs) = Ensures-err _

rows_of-eq :
    (k : String) (answer : Fields) (items : Items) (rows : List Value)
    → get k answer ≡ some (array items)
    → rows_of k answer ≡ ok rows
    → rows ≡ to_list items
unfolding rows_of
rows_of-eq k answer items rows g h = ground (arith, g, h)

-- The summary of a list of pull requests shows at most 25 of them, and counts all that the answer has.
pub summarize_pr_list-bounded :
    (answer : Fields) (items : Items)
    → get "pull_requests" answer ≡ some (array items)
    → Ensures
        (λ s.
          (get "count" s ≡ some (integer (pos (length (to_list items)))))
          × ((shown : Items) × (get "pulls" s ≡ some (array shown))
              × (length (to_list shown) ≤ 25)))
        (summarize_pr_list answer)
unfolding summarize_pr_list get
summarize_pr_list-bounded answer items g = Ensures-bind _ _ λ rows r. Ensures-bind _ _ λ shown s.
    Ensures-ok _ (
      ap (λ vs. some (integer (pos (length vs))))
          (rows_of-eq "pull_requests" answer items rows g r),
      (
        shown,
        refl,
        omega (
          arith,
          length-take 25 rows,
          (length-each_row summarize_row (take 25 rows)).holds shown s,
        ),
      ),
    )
