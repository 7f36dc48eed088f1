-- ===== src/EnginePolicy.antt =====
-- hermes_controller/engine_policy.py: the choice of an engine for a task in auto mode.
-- `fold` stands for the part of `_normalize` that reads Unicode's tables: NFKD, without the
-- combining marks, in lower case.
pub mod Choice
pub mod Order
pub mod Total
pub mod Tests
use dvk_claude.Common.{
  ℕ, String, Bool, true, false, not, ◌&&◌, ◌||◌, Option, none, some, List, [], ◌∷◌, ◌++◌, ◌==◌,
  ◌=?◌, codes, is_digit, is_lower, member, keep, any, map, if◌then◌else◌,
}
use dvk_claude.Result.{Result, ok, err, value_error, ◌>>=◌, ◌>>◌, raise_if}
use dvk_claude.Controller.Validate.Project.{explicit_only_engines, balanced_policy}

pub record EngineDecision : Type 0 where
  pub engine : String
  pub policy : String
  pub rule : String

abbrev pub hybrid_phrases : List String
hybrid_phrases =
    "review" ∷ "code review" ∷ "cross check" ∷ "cross-check" ∷ "double check" ∷ "verify"
    ∷ "validate" ∷ "security" ∷ "secure" ∷ "sensitive" ∷ "critical" ∷ "production" ∷ "prod"
    ∷ "migration" ∷ "migrate" ∷ "breaking change" ∷ "large refactor" ∷ "major refactor" ∷ "revisa"
    ∷ "revision" ∷ "verifica" ∷ "validacion" ∷ "seguridad" ∷ "sensible" ∷ "critico" ∷ "produccion"
    ∷ "migracion" ∷ "refactor grande" ∷ "refactorizacion grande" ∷ []

abbrev pub claude_phrases : List String
claude_phrases =
    "architecture" ∷ "architect" ∷ "design" ∷ "analysis" ∷ "analyze" ∷ "investigate" ∷ "research"
    ∷ "plan" ∷ "strategy" ∷ "tradeoff" ∷ "trade off" ∷ "root cause" ∷ "document" ∷ "documentation"
    ∷ "arquitectura" ∷ "diseno" ∷ "analisis" ∷ "analiza" ∷ "investiga" ∷ "investigacion"
    ∷ "planifica" ∷ "planificacion" ∷ "estrategia" ∷ "causa raiz" ∷ "documenta" ∷ "documentacion"
    ∷ []

abbrev pub codex_phrases : List String
codex_phrases =
    "implement" ∷ "fix" ∷ "bug" ∷ "error" ∷ "failing test" ∷ "test failure" ∷ "unit test"
    ∷ "integration test" ∷ "add endpoint" ∷ "add feature" ∷ "refactor" ∷ "code" ∷ "implementa"
    ∷ "corrige" ∷ "fallo" ∷ "prueba" ∷ "test" ∷ "anade" ∷ "agrega" ∷ "codigo" ∷ "refactoriza" ∷ []

-- `[a-z0-9]`
unfoldable pub is_word : ℕ → Bool
unfolding is_lower is_digit
is_word c = is_lower c || is_digit c

-- The runs of other characters become one space each: `sub(r"[^a-z0-9]+", " ", text)`. The flag
-- says that the character before was of such a run. (`_` is of such a run too.)
unfoldable pub squash : Bool → List ℕ → List ℕ
unfolding is_word
squash in_run [] = []
squash in_run (c ∷ cs) =
    let word = c ∷ squash false cs in
    let gap = b' ' ∷ squash true cs in
    let skip = squash true cs in if is_word c then word else if in_run then skip else gap

-- The spaces at the front; after `squash` no other blank is left.
unfoldable pub drop_spaces : List ℕ → List ℕ
drop_spaces [] = []
drop_spaces (c ∷ cs) = if c =? b' ' then drop_spaces cs else c ∷ cs

unfoldable pub drop_spaces_end : List ℕ → List ℕ
drop_spaces_end [] = []
drop_spaces_end (c ∷ cs) = put_back c (drop_spaces_end cs)
  where
    put_back : ℕ → List ℕ → List ℕ
    put_back d [] = if d =? b' ' then [] else d ∷ []
    put_back d (e ∷ es) = d ∷ e ∷ es

module _ (fold : String → String) where
  -- `_normalize`
  unfoldable pub normalize : String → List ℕ
  unfolding squash drop_spaces drop_spaces_end
  normalize s = drop_spaces_end (drop_spaces (squash false (codes (fold s))))

abbrev pub padded : List ℕ → List ℕ
padded t = b' ' ∷ t ++ b' ' ∷ []

unfoldable pub is_prefix : List ℕ → List ℕ → Bool
is_prefix [] t = true
is_prefix (c ∷ p) [] = false
is_prefix (c ∷ p) (d ∷ t) = c =? d && is_prefix p t

-- `p in t`
unfoldable pub is_infix : List ℕ → List ℕ → Bool
unfolding is_prefix
is_infix p [] = is_prefix p []
is_infix p (d ∷ t) = is_prefix p (d ∷ t) || is_infix p t

-- `list(dict.fromkeys(xs))`
unfoldable pub dedup : List String → List String → List String
unfolding member
dedup seen [] = []
dedup seen (x ∷ xs) =
    let fresh = x ∷ dedup (x ∷ seen) xs in
    let old = dedup seen xs in if member x seen then old else fresh

-- The first engine of a table that is allowed, with its rule.
unfoldable pub pick : List (String × String) → List String → Option (String × String)
unfolding member
pick [] allowed = none
pick ((engine, rule) ∷ rows) allowed =
    if member engine allowed then some (engine, rule) else pick rows allowed

abbrev pub hybrid_rules : List (String × String)
hybrid_rules =
    ("hybrid", "hybrid_review_or_high_impact")
    ∷ ("claude", "hybrid_unavailable_fallback_claude")
    ∷ ("codex", "hybrid_unavailable_fallback_codex")
    ∷ []

abbrev pub claude_rules : List (String × String)
claude_rules =
    ("claude", "claude_analysis_or_architecture")
    ∷ ("codex", "claude_unavailable_fallback_codex")
    ∷ ("hybrid", "claude_unavailable_fallback_hybrid")
    ∷ []

abbrev pub codex_rules : List (String × String)
codex_rules =
    ("codex", "codex_implementation_or_bugfix")
    ∷ ("claude", "codex_unavailable_fallback_claude")
    ∷ ("hybrid", "codex_unavailable_fallback_hybrid")
    ∷ []

abbrev pub default_rules : List (String × String)
default_rules =
    ("codex", "codex_balanced_default")
    ∷ ("claude", "claude_balanced_default")
    ∷ ("hybrid", "hybrid_balanced_default")
    ∷ ("native", "native_balanced_default")
    ∷ []

-- An `if` of `select_engine`: its table if the text has one of the phrases, else what follows.
abbrev pub ladder :
    Bool
    → List (String × String)
    → List String
    → Option (String × String)
    → Option (String × String)
ladder true rows allowed rest = elim (pick rows allowed) [ none ↦ rest | some e ↦ some e ]
ladder false rows allowed rest = rest

module _ (fold : String → String) where
  -- `_contains_phrase`
  unfoldable pub contains_phrase : List ℕ → List String → Bool
  unfolding any is_infix normalize
  contains_phrase t phrases = any (λ p. is_infix (padded (normalize fold p)) (padded t)) phrases

  unfoldable pub choose : List ℕ → List String → Option (String × String)
  choose t allowed = ladder (contains_phrase t hybrid_phrases) hybrid_rules allowed (
      ladder (contains_phrase t claude_phrases) claude_rules allowed
        (ladder (contains_phrase t codex_phrases) codex_rules allowed (pick default_rules allowed)))

abbrev pub decided : String → Option (String × String) → Result EngineDecision
decided policy none = err (value_error "no supported engine is allowed")
decided policy (some (engine, rule)) = ok (record { engine = engine; policy = policy; rule = rule })

-- The engines of the list that may be chosen automatically, each once.
unfoldable pub selectable : List String → List String
unfolding dedup keep member
selectable allowed = keep (λ e. not (member e explicit_only_engines)) (dedup [] allowed)

abbrev pub select_among : (String → String) → String → List String → String → Result EngineDecision
select_among fold instruction [] policy =
    err (value_error "allowed_engines has no auto-selectable engine")
select_among fold instruction (engine ∷ []) policy =
    ok (record { engine = engine; policy = policy; rule = "only_allowed_engine" })
select_among fold instruction engines policy =
    decided policy (choose fold (normalize fold instruction) engines)

abbrev pub is_nil : List String → Bool
is_nil [] = true
is_nil (x ∷ xs) = false

unfoldable pub select_engine :
    (String → String) → String → List String → String → Result EngineDecision
unfolding dedup
select_engine fold instruction allowed policy = do
  raise_if (not (policy == balanced_policy)) (value_error "unsupported engine policy")
  raise_if (is_nil (dedup [] allowed)) (value_error "allowed_engines must not be empty")
  select_among fold instruction (selectable allowed) policy
