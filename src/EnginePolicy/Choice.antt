-- ===== src/EnginePolicy/Choice.antt =====
-- `select_engine` chooses an engine that is allowed.
use dvk_claude.Common.{
  ℕ, String, ◌≡◌, refl, Bool, true, false, not, ◌&&◌, Option, some, List, [], ◌∷◌, eq_iff, eq_refl,
  arith, member, distinct, keep, inl, inr, Option-cases,
}
use dvk_claude.Result.{ok, Ensures, Ensures-bind}
use dvk_claude.Controller.Validate.Project.{explicit_only_engines}
use dvk_claude.EnginePolicy.{
  EngineDecision, dedup, pick, ladder, choose, selectable, select_among, select_engine, normalize,
  default_rules, hybrid_rules, claude_rules, codex_rules,
}

pick-member :
    (rows : List (String × String)) (allowed : List String) (e r : String)
    → pick rows allowed ≡ some (e, r)
    → member e allowed ≡ true
unfolding pick
pick-member [] allowed e r h = cc
pick-member ((x, y) ∷ rows) allowed e r h = ground (arith, pick-member rows allowed e r)

ladder-member :
    (b : Bool) (rows : List (String × String)) (allowed : List String)
    (rest : Option (String × String)) (e r : String)
    → (rest ≡ some (e, r) → member e allowed ≡ true)
    → ladder b rows allowed rest ≡ some (e, r)
    → member e allowed ≡ true
ladder-member true rows allowed rest e r h k = ground (arith, pick-member rows allowed e r, h)
ladder-member false rows allowed rest e r h k = h k

choose-member :
    (fold : String → String) (t : List ℕ) (allowed : List String) (e r : String)
    → choose fold t allowed ≡ some (e, r)
    → member e allowed ≡ true
unfolding choose
choose-member fold t allowed e r = ladder-member _ hybrid_rules allowed _ e r (
    ladder-member _ claude_rules allowed _ e r
      (ladder-member _ codex_rules allowed _ e r (pick-member default_rules allowed e r)))

pub member-dedup :
    (e : String) (seen xs : List String)
    → member e (dedup seen xs) ≡ (member e xs && not (member e seen))
unfolding dedup member
member-dedup e seen [] = refl
member-dedup e seen (x ∷ xs) =
    ground (arith, member-dedup e seen xs, member-dedup e (x ∷ seen) xs, eq_iff x e)

member-keep :
    (e : String) (p : String → Bool) (xs : List String)
    → member e (keep p xs) ≡ (member e xs && p e)
unfolding keep member
member-keep e p [] = refl
member-keep e p (x ∷ xs) = ground (arith, member-keep e p xs, eq_iff x e)

-- An engine may be selected exactly if it is allowed and not explicit-only.
pub member-selectable :
    (e : String) (allowed : List String)
    → member e (selectable allowed) ≡ (member e allowed && not (member e explicit_only_engines))
unfolding selectable member
member-selectable e allowed = ground (
  arith,
  member-keep e (λ x. not (member x explicit_only_engines)) (dedup [] allowed),
  member-dedup e [] allowed,
)

distinct-dedup : (seen xs : List String) → distinct (dedup seen xs) ≡ true
unfolding dedup distinct
distinct-dedup seen [] = refl
distinct-dedup seen (x ∷ xs) = ground (
  arith,
  distinct-dedup seen xs,
  distinct-dedup (x ∷ seen) xs,
  member-dedup x (x ∷ seen) xs,
  eq_refl x,
)

distinct-keep :
    (p : String → Bool) (xs : List String) → distinct xs ≡ true → distinct (keep p xs) ≡ true
unfolding keep distinct
distinct-keep p [] h = refl
distinct-keep p (x ∷ xs) h = ground (arith, distinct-keep p xs, member-keep x p xs)

pub distinct-selectable : (allowed : List String) → distinct (selectable allowed) ≡ true
unfolding selectable
distinct-selectable allowed = distinct-keep _ (dedup [] allowed) (distinct-dedup [] allowed)

abbrev pub IsSelectable : List String → EngineDecision → Type 0
IsSelectable allowed d =
    (member d.engine allowed ≡ true) × (member d.engine explicit_only_engines ≡ false)

select_among-member :
    (fold : String → String) (instruction policy : String) (engines : List String)
    (d : EngineDecision)
    → select_among fold instruction engines policy ≡ ok d
    → member d.engine engines ≡ true
unfolding member
select_among-member fold instruction policy [] d h = cc
select_among-member fold instruction policy (e ∷ []) d h = ground (arith, eq_refl e)
select_among-member fold instruction policy (e ∷ f ∷ es) d h =
    elim (Option-cases (choose fold (normalize fold instruction) (e ∷ f ∷ es))) [
      | inl n ↦ ground (arith, n)
      | inr ((x, r), s) ↦
          ground (arith, s, choose-member fold (normalize fold instruction) (e ∷ f ∷ es) x r s)
    ]

-- The engine that `select_engine` returns is one of the allowed engines and is none of those that
-- are chosen explicitly only, whatever the instruction.
pub select_engine-IsSelectable :
    (fold : String → String) (instruction : String) (allowed : List String) (policy : String)
    → Ensures (IsSelectable allowed) (select_engine fold instruction allowed policy)
unfolding select_engine
select_engine-IsSelectable fold instruction allowed policy = Ensures-bind _ _ λ _ _.
    Ensures-bind _ _ λ _ _. (record {
      holds = λ d h. ground (
        arith,
        select_among-member fold instruction policy (selectable allowed) d h,
        member-selectable d.engine allowed,
      );
    })
