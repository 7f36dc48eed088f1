-- ===== src/Github/Tests.antt =====
-- The summaries of github_api.py at a concrete answer.
use dvk_claude.Common.{◌≤◌, ◌≡◌, refl, some, length}
use dvk_claude.Result.{Ensures}
use dvk_claude.Json.{
  pos, string, integer, array, object, Items, nil, cons, Fields, field, end, get, to_list,
}
use dvk_claude.Github.Evidence.{summarize_pr_list}
use dvk_claude.Github.Bounded.{summarize_pr_list-bounded}

abbrev pulls : Items
pulls = cons (object (field "number" (integer (pos 7)) (field "state" (string "open") end))) nil

abbrev pr_answer : Fields
pr_answer = field "pull_requests" (array pulls) end

pulls_found : get "pull_requests" pr_answer ≡ some (array pulls)
unfolding get
pulls_found = refl

summarize_pr_list-bounded_example :
    Ensures
      (λ s.
        (get "count" s ≡ some (integer (pos (length (to_list pulls)))))
        × ((shown : Items) × (get "pulls" s ≡ some (array shown)) × (length (to_list shown) ≤ 25)))
      (summarize_pr_list pr_answer)
summarize_pr_list-bounded_example = summarize_pr_list-bounded pr_answer pulls pulls_found
