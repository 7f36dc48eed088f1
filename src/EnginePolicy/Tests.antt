-- ===== src/EnginePolicy/Tests.antt =====
-- `select_engine` at concrete inputs, with texts that need no folding.
use dvk_claude.Common.{arith, true, String, ◌≡◌, refl, List, [], ◌∷◌, member}
use dvk_claude.Result.{IsOk, Ensures}
use dvk_claude.Controller.Validate.Project.{balanced_policy}
use dvk_claude.EnginePolicy.{select_engine}
use dvk_claude.EnginePolicy.Choice.{IsSelectable, select_engine-IsSelectable}
use dvk_claude.EnginePolicy.Order.{SameMembers, select_engine-same}
use dvk_claude.EnginePolicy.Total.{select_engine-IsOk}

abbrev unfolded : String → String
unfolded s = s

abbrev engines : List String
engines = "brainstorm" ∷ "claude" ∷ "codex" ∷ []

abbrev engines_again : List String
engines_again = "codex" ∷ "brainstorm" ∷ "claude" ∷ "codex" ∷ []

same_engines : SameMembers engines engines_again
unfolding member
same_engines e = ground arith

claude_allowed : member "claude" engines ≡ true
unfolding member
claude_allowed = refl

select_engine-IsSelectable_example :
    Ensures (IsSelectable engines) (select_engine unfolded "fix the bug" engines balanced_policy)
select_engine-IsSelectable_example =
    select_engine-IsSelectable unfolded "fix the bug" engines balanced_policy

select_engine-same_example :
    select_engine unfolded "fix the bug" engines balanced_policy
    ≡ select_engine unfolded "fix the bug" engines_again balanced_policy
select_engine-same_example =
    select_engine-same unfolded "fix the bug" balanced_policy engines engines_again same_engines

select_engine-IsOk_example : IsOk (select_engine unfolded "fix the bug" engines balanced_policy)
unfolding member
select_engine-IsOk_example =
    select_engine-IsOk unfolded "fix the bug" engines "claude" refl claude_allowed
