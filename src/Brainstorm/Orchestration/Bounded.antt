-- ===== src/Brainstorm/Orchestration/Bounded.antt =====
-- How often a model stage calls its engine.
use dvk_claude.Common.{
  ℕ, zero, suc, ◌+◌, ◌≤◌, ◌<◌, String, ◌≡◌, ◌≢◌, refl, ap, Option, none, some, List, [], ◌∷◌, ◌⊎◌,
  inl, inr, arith, eq_refl,
}
use dvk_claude.Common.Dict.{lookup, assign}
use dvk_claude.Json.{Value}
use dvk_claude.Result.{value_error, Result, ok, err}
use dvk_claude.Brainstorm.Orchestration.{
  max_stage_retries, max_total_retries, Trouble, unexpected, Run, Codec, Stage, stage_name,
  reuse_checkpoint,
}
use dvk_claude.Brainstorm.Orchestration.ModelStage.{
  Response, structured, structured_error, raises, World, Answer, raised, exhausted, Ended, ended,
  or_zero, retries_of, count_retry, count_call, add_evidence, publish, retry_trouble, retried,
  judged, answered, timed, call_model, after_reuse, model_stage,
}

pub lookup-assign {ℓ} :
    {A : Type ℓ} (k : String) (v : A) (d : List (String × A)) → lookup k (assign k v d) ≡ some v
unfolding lookup assign
lookup-assign k v [] = ground (arith, eq_refl k)
lookup-assign k v ((j, w) ∷ d) = ground (arith, lookup-assign k v d)

-- A computation from a run: it has ended, and has made `n` calls of an engine at most, and one more
-- for each retry.
pub record Spends {ℓ} {V : Type ℓ} (n : ℕ) (run : Run) (e : Ended V) : Type ℓ where
  pub ends : e.answer ≢ exhausted
  pub calls :
      e.run.budget.model_calls + run.budget.retries_used
      ≤ run.budget.model_calls + n + e.run.budget.retries_used
  pub total :
      run.budget.retries_used ≤ max_total_retries → e.run.budget.retries_used ≤ max_total_retries

module _ {ℓ} {V : Type ℓ} (codec : Codec) (world : World) (s : Stage V) where
  abbrev retries : Run → ℕ
  retries run = retries_of (stage_name s) run.budget

  retries-count_retry : (run : Run) → retries (count_retry (stage_name s) run) ≡ retries run + 1
  retries-count_retry run =
      ap or_zero (lookup-assign (stage_name s) (retries run + 1) run.budget.stage_retries)

  abbrev Bounded : Run → Ended V → Type ℓ
  Bounded = Spends 1

  retry-allowed :
      (run : Run)
      → retry_trouble codec world s run ≡ none
      → (retries run < max_stage_retries) × (run.budget.retries_used < max_total_retries)
  retry-allowed run h = ground (arith, h)

  -- The rest of the loop, when it may still make enough calls.
  abbrev Again : (Run → Ended V) → ℕ → Type ℓ
  Again again spent =
      (next : Run) → spent < max_stage_retries → spent < retries next → Bounded next (again next)

  -- A call was made from `run` that has led to `heard`.
  pub record Called (run heard : Run) : Type 0 where
    pub counted : heard.budget.model_calls ≡ run.budget.model_calls + 1
    pub unused : heard.budget.retries_used ≡ run.budget.retries_used
    pub same_stage : retries heard ≡ retries run

  stopped :
      (run heard : Run) (a : Answer V)
      → Called run heard
      → a ≢ exhausted
      → Bounded run (ended heard a)
  stopped run heard a c n = record {
    ends = n;
    calls = omega (arith, c.counted, c.unused);
    total = λ h. omega (arith, h, c.unused);
  }

  retried-Bounded :
      (run heard : Run) (again : Run → Ended V) (t : Option Trouble)
      → retry_trouble codec world s heard ≡ t
      → Called run heard
      → Again again (retries run)
      → Bounded run (retried codec world s again heard t)
  retried-Bounded run heard again (some t) e c rest = stopped run heard (raised t) c (λ x. cc)
  retried-Bounded run heard again none e c rest =
      let next = count_retry (stage_name s) heard in
      let allowed = retry-allowed heard e in
      let ih =
        rest next (omega (arith, allowed.0, c.same_stage))
          (omega (arith, retries-count_retry heard, c.same_stage)) in
      record {
        ends = ih.ends;
        calls = omega (arith, ih.calls, c.counted, c.unused);
        total = λ h. ih.total (omega (arith, allowed.1));
      }

  judged-Bounded :
      (run heard : Run) (again : Run → Ended V) (payload : Value) (r : Result V)
      → Called run heard
      → Again again (retries run)
      → Bounded run (judged codec world s again heard payload r)
  unfolding publish
  judged-Bounded run heard again payload (ok v) c rest = record {
    ends = λ x. cc;
    calls = omega (arith, c.counted, c.unused);
    total = λ h. omega (arith, h, c.unused);
  }
  judged-Bounded run heard again payload (err (value_error m)) c rest =
      retried-Bounded run heard again (retry_trouble codec world s heard) refl c rest
  judged-Bounded run heard again payload (err e) c rest =
      stopped run heard (raised (unexpected e)) c (λ x. cc)

  call-Called : (run : Run) → Called run (count_call run)
  call-Called run = record { counted = refl; unused = refl; same_stage = refl }

  answered-Bounded :
      (run : Run) (again : Run → Ended V) (response : Response)
      → Again again (retries run)
      → Bounded run (answered codec world s again (count_call run) response)
  answered-Bounded run again raises rest =
      stopped run (count_call run) _ (call-Called run) (λ x. cc)
  answered-Bounded run again (structured_error status lines) rest =
      stopped run (add_evidence lines (count_call run)) _
        (record { counted = refl; unused = refl; same_stage = refl }) (λ x. cc)
  answered-Bounded run again (structured payload lines) rest =
      judged-Bounded run (add_evidence lines (count_call run)) again payload (s.validate payload)
        (record { counted = refl; unused = refl; same_stage = refl }) rest

  timed-Bounded :
      (run : Run) (again : Run → Ended V) (t : Trouble ⊎ ℕ)
      → Again again (retries run)
      → Bounded run (timed codec world s again run t)
  timed-Bounded run again (inl trouble) rest = record {
    ends = λ x. cc;
    calls = omega arith;
    total = λ h. h;
  }
  timed-Bounded run again (inr timeout) rest =
      answered-Bounded run again (world.respond run.budget.model_calls) rest

  call_model-Bounded :
      (fuel : ℕ) (run : Run)
      → max_stage_retries ≤ fuel + retries run
      → Bounded run (call_model codec world s (suc fuel) run)
  unfolding call_model
  call_model-Bounded zero run h =
      timed-Bounded run (call_model codec world s zero) _
        (λ next less more. absurd (omega (arith, h, less)))
  call_model-Bounded (suc fuel) run h =
      timed-Bounded run (call_model codec world s (suc fuel)) _
        (λ next less more. call_model-Bounded fuel next (omega (arith, more)))

  after_reuse-Bounded :
      (run : Run) (r : Trouble ⊎ Option (Value × V)) → Bounded run (after_reuse codec world s run r)
  after_reuse-Bounded run (inl trouble) = record {
    ends = λ x. cc;
    calls = omega arith;
    total = λ h. h;
  }
  after_reuse-Bounded run (inr (some (payload, v))) = record {
    ends = λ x. cc;
    calls = omega arith;
    total = λ h. h;
  }
  after_reuse-Bounded run (inr none) = call_model-Bounded max_stage_retries run (omega arith)

  -- A model stage ends, and calls its engine once more than it has retried.
  pub model_stage-Spends : (run : Run) → Spends 1 run (model_stage codec world s run)
  unfolding model_stage
  model_stage-Spends run = after_reuse-Bounded run (reuse_checkpoint codec s run)
