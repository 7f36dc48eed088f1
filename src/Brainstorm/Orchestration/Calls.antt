-- ===== src/Brainstorm/Orchestration/Calls.antt =====
-- How many calls of the engines a workflow makes.
use dvk_claude.Common.{ℕ, ◌+◌, ◌≤◌, ◌≡◌, ◌≢◌, refl, String, List, arith}
use dvk_claude.Json.{Value, null, Fields}
use dvk_claude.Result.{Result, ok, err}
use dvk_claude.Brainstorm.Ranking.{Ranking}
use dvk_claude.Brainstorm.Evaluations.{Evaluation}
use dvk_claude.Brainstorm.Anonymous.{AnonymizedCandidates}
use dvk_claude.Brainstorm.Orchestration.{Run, Stage}
use dvk_claude.Brainstorm.Orchestration.ModelStage.{
  Answer, returned, raised, exhausted, Ended, ended,
}
use dvk_claude.Brainstorm.Orchestration.Workflow.{
  Setup, carry, and_then, step, write_output, ask, finish, evaluate, workflow,
}
use dvk_claude.Brainstorm.Orchestration.Bounded.{Spends, model_stage-Spends}

carry-Spends {ℓ κ} :
    {V : Type ℓ} {W : Type κ} (n m : ℕ) (start run : Run) (a : Answer V) (rest : Run → V → Ended W)
    → Spends n start (ended run a)
    → ((v : V) → Spends m run (rest run v))
    → Spends (n + m) start (carry run a rest)
carry-Spends n m start run (returned payload v) rest first later = record {
  ends = (later v).ends;
  calls = omega (arith, first.calls, (later v).calls);
  total = λ h. (later v).total (first.total h);
}
carry-Spends n m start run (raised t) rest first later = record {
  ends = λ x. cc;
  calls = omega (arith, first.calls);
  total = first.total;
}
carry-Spends n m start run exhausted rest first later = absurd (first.ends refl)

step-Spends {ℓ κ} :
    {A : Type ℓ} {W : Type κ} (n : ℕ) (run : Run) (r : Result A) (rest : A → Ended W)
    → ((a : A) → Spends n run (rest a))
    → Spends n run (step run r rest)
unfolding step
step-Spends n run (ok a) rest h = h a
step-Spends n run (err e) rest h = record { ends = λ x. cc; calls = omega arith; total = λ t. t }

module _ (setup : Setup) where
  ask-Spends {ℓ κ} :
      {V : Type ℓ} {W : Type κ} (m : ℕ) (s : Stage V) (run : Run) (rest : Run → V → Ended W)
      → ((next : Run) (v : V) → Spends m next (rest next v))
      → Spends (1 + m) run (and_then (ask setup s run) rest)
  unfolding and_then
  ask-Spends m s run rest h =
      let asked = ask setup s run in
      carry-Spends 1 m run asked.run asked.answer rest
        (model_stage-Spends setup.codec setup.world s run) (λ v. h asked.run v)

  returned-Spends {ℓ} :
      {V : Type ℓ} (run : Run) (payload : Value) (v : V)
      → Spends 0 run (ended run (returned payload v))
  returned-Spends run payload v = record { ends = λ x. cc; calls = omega arith; total = λ t. t }

  finish-Spends :
      (bundle : List Fields) (by_claude by_codex : List (String × Evaluation)) (ranking : Ranking)
      (run : Run)
      → Spends 2 run (finish setup bundle by_claude by_codex ranking run)
  unfolding finish
  finish-Spends bundle by_claude by_codex ranking run = step-Spends 2 run _ _ λ winner_id.
      step-Spends 2 run _ _ λ winner. step-Spends 2 run _ _ λ refiner.
        step-Spends 2 run _ _ λ validator. step-Spends 2 run _ _ λ a. step-Spends 2 run _ _ λ b.
          ask-Spends 1 _ run _ λ refined refinement.
            ask-Spends 0 _ refined _ λ validated validation.
              step-Spends 0 validated _ _ λ recommendation. returned-Spends validated null _

  -- A step of the orchestrator itself spends nothing.
  written-Spends {ℓ} :
      {V : Type ℓ} (n : ℕ) (name done : String) (v : Value) (run : Run) (e : Ended V)
      → Spends n (write_output setup name done v run) e
      → Spends n run e
  written-Spends n name done v run e s = record { ends = s.ends; calls = s.calls; total = s.total }

  evaluate-Spends :
      (anonymous : AnonymizedCandidates) (run : Run) → Spends 4 run (evaluate setup anonymous run)
  unfolding evaluate
  evaluate-Spends anonymous run = written-Spends 4 _ _ _ run _ (
      step-Spends 4 _ _ _ λ ids. ask-Spends 3 _ _ _ λ first_run by_claude.
        ask-Spends 2 _ first_run _ λ second_run by_codex. step-Spends 2 second_run _ _ λ ranking.
          written-Spends 2 _ _ _ second_run _
            (finish-Spends anonymous.bundle by_claude by_codex ranking _))

  workflow-Spends : (run : Run) → Spends 6 run (workflow setup run)
  unfolding workflow
  workflow-Spends run = ask-Spends 5 _ run _ λ codex_run codex_proposals.
      ask-Spends 4 _ codex_run _ λ claude_run claude_proposals.
        step-Spends 4 claude_run _ _ λ anonymous. evaluate-Spends anonymous claude_run

  -- The workflow ends, and an attempt that starts with a fresh budget makes 8 calls of the engines at
  -- most: one for each of the six stages, and 2 for output that is not valid.
  pub workflow-bounded :
      (run : Run)
      → run.budget.model_calls ≡ 0
      → run.budget.retries_used ≡ 0
      → ((workflow setup run).answer ≢ exhausted)
        × ((workflow setup run).run.budget.model_calls ≤ 8)
  workflow-bounded run c r =
      let spent = workflow-Spends run in
      (spent.ends, omega (arith, spent.calls, spent.total (omega (arith, r)), c, r))
