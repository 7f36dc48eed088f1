-- ===== src/Brainstorm/Orchestration/Resumed.antt =====
-- A stage that has returned is not asked again when its run is resumed.
use dvk_claude.Common.{
  ℕ, zero, suc, String, ◌≡◌, refl, ap, ◌∙◌, true, Option, none, some, ◌⊎◌, inl, inr, eq_refl,
}
use dvk_claude.Common.Dict.{lookup, assign}
use dvk_claude.Json.{Value}
use dvk_claude.Result.{value_error, Result, ok, err}
use dvk_claude.Brainstorm.Orchestration.{
  max_stage_retries, Trouble, unexpected, holds, Run, Codec, Stage, stage_name, is_same_stage,
  reuse_entry, reuse_checkpoint,
}
use dvk_claude.Brainstorm.Orchestration.ModelStage.{
  Response, structured, structured_error, raises, World, returned, raised, Ended, ended, complete,
  count_call, add_evidence, checkpoint_of, publish, count_retry, retry_trouble, retried, judged,
  answered, timed, call_model, after_reuse, model_stage,
}
use dvk_claude.Brainstorm.Orchestration.Bounded.{lookup-assign}

module _ {ℓ} {V : Type ℓ} (codec : Codec) (s : Stage V) where
  -- The payload is read again from its bytes.
  abbrev pub IsReadBack : Value → Type 0
  IsReadBack payload = codec.loads (codec.json_bytes payload) ≡ some payload

  -- A run that has returned an answer has it in its files.
  abbrev pub Kept : Ended V → Type ℓ
  Kept e =
      (payload : Value) (v : V)
      → e.answer ≡ returned payload v
      → IsReadBack payload
      → reuse_checkpoint codec s e.run ≡ inr (some (payload, v))

  same_stage :
      (world : World) (bytes : String)
      → is_same_stage codec s (checkpoint_of codec world s bytes) ≡ true
  same_stage world bytes = simp (eq_refl)

  entry-found :
      (world : World) (payload : Value) (v : V)
      → s.validate payload ≡ ok v
      → IsReadBack payload
      → reuse_entry codec s
          (some (holds (checkpoint_of codec world s (codec.json_bytes payload))))
          (some (holds (codec.json_bytes payload)))
        ≡ inr (some (payload, v))
  entry-found world payload v e l =
      rw
        (
          same_stage world (codec.json_bytes payload),
          eq_refl (codec.sha256 (codec.json_bytes payload)),
          l,
          e,
        )
        refl

  publish-found :
      (world : World) (run : Run) (payload : Value) (v : V)
      → s.validate payload ≡ ok v
      → IsReadBack payload
      → reuse_checkpoint codec s (publish codec world s payload run) ≡ inr (some (payload, v))
  unfolding reuse_checkpoint publish
  publish-found world run payload v e l =
      let bytes = codec.json_bytes payload in
      ap
        (λ c.
          reuse_entry codec s c
            (lookup s.output_name (assign s.output_name (holds bytes) run.outputs)))
        (lookup-assign (stage_name s) (holds (checkpoint_of codec world s bytes)) run.checkpoints)
      ∙ ap (reuse_entry codec s (some (holds (checkpoint_of codec world s bytes))))
          (lookup-assign s.output_name (holds bytes) run.outputs)
      ∙ entry-found world payload v e l

  raised-Kept : (run : Run) (t : Trouble) → Kept (ended run (raised t))
  raised-Kept run t payload v e l = absurd cc

  module _ (world : World) (again : Run → Ended V) (rest : (run : Run) → Kept (again run)) where
    retried-Kept : (heard : Run) (t : Option Trouble) → Kept (retried codec world s again heard t)
    retried-Kept heard (some t) = raised-Kept heard t
    retried-Kept heard none = rest (count_retry (stage_name s) heard)

    judged-Kept :
        (heard : Run) (payload : Value) (r : Result V)
        → s.validate payload ≡ r
        → Kept (judged codec world s again heard payload r)
    judged-Kept heard payload (ok w) valid =
        λ p v e l. let found = publish-found world heard payload w valid (cc) in cc
    judged-Kept heard payload (err (value_error m)) valid =
        retried-Kept heard (retry_trouble codec world s heard)
    judged-Kept heard payload (err e) valid = raised-Kept heard (unexpected e)

    answered-Kept :
        (called : Run) (response : Response) → Kept (answered codec world s again called response)
    answered-Kept called raises = raised-Kept called _
    answered-Kept called (structured_error status lines) = raised-Kept (add_evidence lines called) _
    answered-Kept called (structured payload lines) =
        judged-Kept (add_evidence lines called) payload (s.validate payload) refl

    timed-Kept : (run : Run) (t : Trouble ⊎ ℕ) → Kept (timed codec world s again run t)
    timed-Kept run (inl t) = raised-Kept run t
    timed-Kept run (inr timeout) =
        answered-Kept (count_call run) (world.respond run.budget.model_calls)

  module _ (world : World) where
    call_model-Kept : (fuel : ℕ) (run : Run) → Kept (call_model codec world s fuel run)
    unfolding call_model
    call_model-Kept zero run = λ payload v e l. absurd cc
    call_model-Kept (suc fuel) run =
        timed-Kept world (call_model codec world s fuel) (call_model-Kept fuel) run _

    after_reuse-Kept :
        (run : Run) (r : Trouble ⊎ Option (Value × V))
        → reuse_checkpoint codec s run ≡ r
        → Kept (after_reuse codec world s run r)
    unfolding reuse_checkpoint
    after_reuse-Kept run (inl t) found = raised-Kept run t
    after_reuse-Kept run (inr none) found = call_model-Kept (suc max_stage_retries) run
    after_reuse-Kept run (inr (some (payload, w))) found = λ p v e l. cc

    model_stage-Kept : (run : Run) → Kept (model_stage codec world s run)
    unfolding model_stage
    model_stage-Kept run = after_reuse-Kept run (reuse_checkpoint codec s run) refl

    -- A stage has returned a payload that is read back from its bytes. An attempt that finds the
    -- checkpoint of the stage and its output as they were left gets the same answer: it asks no engine,
    -- and its run is changed only by the names of the output and of the stage.
    pub model_stage-resumed :
        (run next : Run) (later : World) (payload : Value) (v : V)
        → (model_stage codec world s run).answer ≡ returned payload v
        → codec.loads (codec.json_bytes payload) ≡ some payload
        → lookup (stage_name s) next.checkpoints
          ≡ lookup (stage_name s) (model_stage codec world s run).run.checkpoints
        → lookup s.output_name next.outputs
          ≡ lookup s.output_name (model_stage codec world s run).run.outputs
        → model_stage codec later s next
          ≡ ended (complete s.output_name (stage_name s) next) (returned payload v)
    unfolding model_stage reuse_checkpoint
    model_stage-resumed run next later payload v e l c o = ap (after_reuse codec later s next) (
        ap (λ x. reuse_entry codec s x (lookup s.output_name next.outputs)) c
        ∙ ap
            (reuse_entry codec s
              (lookup (stage_name s) (model_stage codec world s run).run.checkpoints))
            o
        ∙ model_stage-Kept run payload v e l)
