-- ===== src/EnginePolicy/Total.antt =====
-- `select_engine` finds an engine wherever one that the policy knows is allowed.
use dvk_claude.Common.{
  ℕ, String, ◌≡◌, ◌≢◌, refl, sym, subst, Bool, true, false, ◌||◌, Option, none, some, List, [], ◌∷◌,
  ◌==◌, eq_iff, arith, member, inl, inr, Bool-cases,
}
use dvk_claude.Result.{IsOk, ◌>>=◌}
use dvk_claude.Controller.Validate.Project.{explicit_only_engines, balanced_policy}
use dvk_claude.EnginePolicy.{
  dedup, is_nil, pick, ladder, choose, decided, selectable, select_among, select_engine, normalize,
  default_rules, hybrid_rules, claude_rules, codex_rules,
}
use dvk_claude.EnginePolicy.Choice.{member-selectable}

-- The engines that a task can be given without being asked for by name.
abbrev pub automatic_engines : List String
automatic_engines = "codex" ∷ "claude" ∷ "hybrid" ∷ "native" ∷ []

abbrev has_row : String → List (String × String) → Bool
has_row e [] = false
has_row e ((x, r) ∷ rows) = x == e || has_row e rows

pick-some :
    (rows : List (String × String)) (allowed : List String) (e : String)
    → has_row e rows ≡ true
    → member e allowed ≡ true
    → pick rows allowed ≢ none
unfolding pick
pick-some [] allowed e h m = cc
pick-some ((x, y) ∷ rows) allowed e h m = ground (arith, pick-some rows allowed e, eq_iff x e)

ladder-some :
    (b : Bool) (rows : List (String × String)) (allowed : List String)
    (rest : Option (String × String))
    → rest ≢ none
    → ladder b rows allowed rest ≢ none
ladder-some true rows allowed rest h = ground arith
ladder-some false rows allowed rest h = h

choose-some :
    (fold : String → String) (t : List ℕ) (allowed : List String) (e : String)
    → has_row e default_rules ≡ true
    → member e allowed ≡ true
    → choose fold t allowed ≢ none
unfolding choose
choose-some fold t allowed e h m = ladder-some _ hybrid_rules allowed _ (
    ladder-some _ claude_rules allowed _
      (ladder-some _ codex_rules allowed _ (pick-some default_rules allowed e h m)))

decided-IsOk : (policy : String) (c : Option (String × String)) → c ≢ none → IsOk (decided policy c)
decided-IsOk policy none h = absurd (h refl)
decided-IsOk policy (some (e, r)) h = tt

select_among-IsOk :
    (fold : String → String) (instruction policy : String) (engines : List String) (e : String)
    → has_row e default_rules ≡ true
    → member e engines ≡ true
    → IsOk (select_among fold instruction engines policy)
unfolding member
select_among-IsOk fold instruction policy [] e h m = absurd (ground arith)
select_among-IsOk fold instruction policy (x ∷ []) e h m = tt
select_among-IsOk fold instruction policy (x ∷ y ∷ es) e h m =
    decided-IsOk policy _ (choose-some fold (normalize fold instruction) (x ∷ y ∷ es) e h m)

dedup_nil-member :
    (allowed : List String) (e : String)
    → member e allowed ≡ true
    → is_nil (dedup [] allowed) ≡ false
unfolding dedup member
dedup_nil-member [] e m = cc
dedup_nil-member (x ∷ xs) e m = refl

automatic-has_row :
    (e : String) → member e automatic_engines ≡ true → has_row e default_rules ≡ true
unfolding member
automatic-has_row e h = ground (arith, h)

supported_selectable :
    (e : String) → has_row e default_rules ≡ true → member e explicit_only_engines ≡ false
unfolding member
supported_selectable e h = elim (Bool-cases ("brainstorm" == e)) [
  | inl q ↦
      let p : "brainstorm" ≡ e = (eq_iff "brainstorm" e).0 q in
      let f : false ≡ true = subst (λ x. has_row x default_rules ≡ true) (sym p) h in cc
  | inr q ↦ rw q
]

-- Under the balanced policy `select_engine` returns an engine whenever codex, claude, hybrid or
-- native is among the allowed engines.
pub select_engine-IsOk :
    (fold : String → String) (instruction : String) (allowed : List String) (e : String)
    → member e automatic_engines ≡ true
    → member e allowed ≡ true
    → IsOk (select_engine fold instruction allowed balanced_policy)
unfolding select_engine ◌>>=◌
select_engine-IsOk fold instruction allowed e h m =
    let row = automatic-has_row e h in
    rw (dedup_nil-member allowed e m) (
      select_among-IsOk fold instruction balanced_policy (selectable allowed) e row
        (ground (arith, member-selectable e allowed, supported_selectable e row)))
