-- ===== src/EnginePolicy/Order.antt =====
-- The choice of `select_engine` does not depend on the order of the allowed engines.
use dvk_claude.Common.{
  ℕ, String, ◌≡◌, refl, ap, Bool, true, false, Option, List, [], ◌∷◌, eq_iff, eq_refl, arith,
  member, distinct,
}
use dvk_claude.Result.{◌>>=◌}
use dvk_claude.EnginePolicy.{
  dedup, is_nil, pick, ladder, choose, decided, selectable, select_among, select_engine, normalize,
  default_rules, hybrid_rules, claude_rules, codex_rules,
}
use dvk_claude.EnginePolicy.Choice.{member-selectable, distinct-selectable}

abbrev pub SameMembers : List String → List String → Type 0
SameMembers as' bs = (e : String) → member e as' ≡ member e bs

pick-same :
    (rows : List (String × String)) (as' bs : List String)
    → SameMembers as' bs
    → pick rows as' ≡ pick rows bs
unfolding pick
pick-same [] as' bs s = refl
pick-same ((x, y) ∷ rows) as' bs s = cc (s x, pick-same rows as' bs s)

ladder-same :
    (b : Bool) (rows : List (String × String)) (as' bs : List String)
    (rest rest' : Option (String × String))
    → SameMembers as' bs
    → rest ≡ rest'
    → ladder b rows as' rest ≡ ladder b rows bs rest'
ladder-same true rows as' bs rest rest' s e = cc (pick-same rows as' bs s)
ladder-same false rows as' bs rest rest' s e = e

choose-same :
    (fold : String → String) (t : List ℕ) (as' bs : List String)
    → SameMembers as' bs
    → choose fold t as' ≡ choose fold t bs
unfolding choose
choose-same fold t as' bs s = ladder-same _ hybrid_rules as' bs _ _ s (
    ladder-same _ claude_rules as' bs _ _ s
      (ladder-same _ codex_rules as' bs _ _ s (pick-same default_rules as' bs s)))

-- Of two lists with the same members and no repetition, both have one entry or both have more.
select_among-same :
    (fold : String → String) (instruction policy : String) (as' bs : List String)
    → SameMembers as' bs
    → distinct as' ≡ true
    → distinct bs ≡ true
    → select_among fold instruction as' policy ≡ select_among fold instruction bs policy
unfolding member distinct
select_among-same fold instruction policy [] [] s d d' = refl
select_among-same fold instruction policy [] (y ∷ ys) s d d' =
    absurd (ground (arith, s y, eq_refl y))
select_among-same fold instruction policy (x ∷ xs) [] s d d' =
    absurd (ground (arith, s x, eq_refl x))
select_among-same fold instruction policy (x ∷ []) (y ∷ []) s d d' =
    ground (arith, s x, eq_refl x, eq_iff y x)
select_among-same fold instruction policy (x ∷ []) (y ∷ z ∷ ys) s d d' =
    absurd (ground (arith, s y, s z, eq_refl y, eq_refl z, eq_iff x y, eq_iff x z, eq_iff z y))
select_among-same fold instruction policy (x ∷ w ∷ xs) (y ∷ []) s d d' =
    absurd (ground (arith, s x, s w, eq_refl x, eq_refl w, eq_iff y x, eq_iff y w, eq_iff w x))
select_among-same fold instruction policy (x ∷ w ∷ xs) (y ∷ z ∷ ys) s d d' =
    ap (decided policy) (choose-same fold (normalize fold instruction) (x ∷ w ∷ xs) (y ∷ z ∷ ys) s)

selectable-same :
    (as' bs : List String) → SameMembers as' bs → SameMembers (selectable as') (selectable bs)
selectable-same as' bs s e = cc (s e, member-selectable e as', member-selectable e bs)

dedup_nil :
    (as' bs : List String) → SameMembers as' bs → is_nil (dedup [] as') ≡ is_nil (dedup [] bs)
unfolding dedup member
dedup_nil [] [] s = refl
dedup_nil [] (y ∷ ys) s = absurd (ground (arith, s y, eq_refl y))
dedup_nil (x ∷ xs) [] s = absurd (ground (arith, s x, eq_refl x))
dedup_nil (x ∷ xs) (y ∷ ys) s = refl

-- The choice depends on which engines are allowed, and on neither their order nor repetitions.
pub select_engine-same :
    (fold : String → String) (instruction policy : String) (as' bs : List String)
    → SameMembers as' bs
    → select_engine fold instruction as' policy ≡ select_engine fold instruction bs policy
unfolding select_engine ◌>>=◌
select_engine-same fold instruction policy as' bs s = rw (
  dedup_nil as' bs s,
  select_among-same fold instruction policy (selectable as') (selectable bs)
      (selectable-same as' bs s) (distinct-selectable as') (distinct-selectable bs),
)
