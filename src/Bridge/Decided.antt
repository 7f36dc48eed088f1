-- ===== src/Bridge/Decided.antt =====
-- What `/gate` has done when it has answered.
use dvk_claude.Common.{
  ◌≤◌, String, ◌≡◌, ◌≢◌, refl, false, Option, none, some, List, [], ◌∷◌, ◌⊎◌, inl, inr, codes,
  length, arith,
}
use dvk_claude.Result.{Result, ok, err}
use dvk_claude.Controller.Schema.{Decision, GateDecision, Db, Env}
use dvk_claude.Controller.Views.{PendingGate}
use dvk_claude.Controller.Machine.{Call, run}
use dvk_claude.Controller.Named.{Says}
use dvk_claude.Api.{Server}
use dvk_claude.Worker.Client.{Exchange}
use dvk_claude.Bridge.Shlex.{shlex_split}
use dvk_claude.Bridge.{
  Settings, Trouble, Notice, usage, resolved, only_gate, matching, min_job_prefix, select_gate,
  select_listed, action_of, Handled, handled, trouble_notice, pending_gates, chosen, decide_parts,
  parsed, handle_gate,
}
use dvk_claude.Bridge.Sent.{decide_gate-Fine, may_have_decided, trouble-unresolved}

only_gate_lem : (gs : List PendingGate) (g : PendingGate) → only_gate gs ≡ inr g → gs ≡ g ∷ []
only_gate_lem [] g h = absurd cc
only_gate_lem (g ∷ []) h e = cc
only_gate_lem (g ∷ h ∷ gs) i e = absurd cc

-- The prefix is long enough, and one listed gate matches it.
abbrev pub Selects : String → Trouble ⊎ List PendingGate → PendingGate → Type 0
Selects job_prefix o g =
    (gs : List PendingGate) × (o ≡ inr gs)
    × (min_job_prefix ≤ length (codes job_prefix))
    × (matching job_prefix gs ≡ g ∷ [])

select_listed-Selects :
    (job_prefix : String) (o : Trouble ⊎ List PendingGate) (g : PendingGate)
    → select_listed job_prefix o ≡ inr g
    → Selects job_prefix o g
unfolding select_gate
select_listed-Selects job_prefix (inl t) g h = absurd cc
select_listed-Selects job_prefix (inr gs) g h =
    let (long, e) = long_and_only h in (gs, refl, long, only_gate_lem (matching job_prefix gs) g e)
  where
    long_and_only :
        select_gate job_prefix gs ≡ inr g
        → (min_job_prefix ≤ length (codes job_prefix))
          × (only_gate (matching job_prefix gs) ≡ inr g)
    long_and_only h = ground (arith, h)

module _ (srv : Server) (settings : Settings) (x : Exchange) (others : List (Env × Call))
    (y : Exchange) where
  -- The decision is what the command asks for, about the one gate that it selects.
  pub record Asks (parts : List String) (db : Db) (d : GateDecision) : Type 0 where
    pub word : String
    pub job_prefix : String
    pub note : List String
    pub action : Decision
    pub gate : PendingGate
    pub asked : parts ≡ word ∷ job_prefix ∷ note
    pub meant : action_of word ≡ some action
    pub selected : Selects job_prefix (pending_gates srv settings x db) gate
    pub says : Says gate.job_id gate.gate gate.source_run_id action d

  -- Nothing was written, or nothing but by the calls that came between.
  abbrev pub Untouched : Db → Db → Type 0
  Untouched db new = (new ≡ db) ⊎ (new ≡ run others db)

  record Answers (parts : List String) (db : Db) (h : Handled) : Type 0 where
    decides : (d : GateDecision) → h.notice ≡ resolved d → Asks parts db d
    otherwise : may_have_decided h.notice ≡ false → Untouched db h.db

  quiet-Answers :
      (parts : List String) (db : Db) (n : Notice)
      → ((d : GateDecision) → n ≢ resolved d)
      → Answers parts db (handled n db)
  quiet-Answers parts db n unlike = record {
    decides = λ d h. absurd (unlike d h);
    otherwise = λ _. inl refl;
  }

  chosen-Answers :
      (a job_prefix : String) (rest : List String) (action : Decision) (db : Db)
      (o : Trouble ⊎ PendingGate)
      → action_of a ≡ some action
      → select_listed job_prefix (pending_gates srv settings x db) ≡ o
      → Answers (a ∷ job_prefix ∷ rest) db (chosen srv settings action rest y others db o)
  chosen-Answers a job_prefix rest action db (inl t) m s =
      quiet-Answers (a ∷ job_prefix ∷ rest) db (trouble_notice t) (trouble-unresolved t)
  chosen-Answers a job_prefix rest action db (inr g) m s =
      let fine = decide_gate-Fine srv settings action rest y g (run others db) in
      record {
        decides = λ d h. record {
          word = a;
          job_prefix = job_prefix;
          note = rest;
          action = action;
          gate = g;
          asked = refl;
          meant = m;
          selected = select_listed-Selects job_prefix (pending_gates srv settings x db) g s;
          says = fine.decides d h;
        };
        otherwise = λ h. inr (fine.otherwise h);
      }

  decide_parts-Answers :
      (parts : List String) (db : Db)
      → Answers parts db (decide_parts srv settings parts x others y db)
  unfolding decide_parts
  decide_parts-Answers [] db = quiet-Answers [] db usage (λ d h. cc)
  decide_parts-Answers (a ∷ []) db = quiet-Answers (a ∷ []) db usage (λ d h. cc)
  decide_parts-Answers (a ∷ job_prefix ∷ rest) db = by_action (action_of a) refl
    where
      by_action :
          (o : Option Decision)
          → action_of a ≡ o
          → Answers (a ∷ job_prefix ∷ rest) db (elim o [
            | none ↦ handled usage db
            | some action ↦
                chosen srv settings action rest y others db
                  (select_listed job_prefix (pending_gates srv settings x db))
          ])
      by_action none m = quiet-Answers (a ∷ job_prefix ∷ rest) db usage (λ d h. cc)
      by_action (some action) m = chosen-Answers a job_prefix rest action db _ m refl

  -- A command that was read, and its answer.
  abbrev pub Read : String → Db → GateDecision → Type 0
  Read raw_args db d = (parts : List String) × (shlex_split raw_args ≡ ok parts) × Asks parts db d

  read-Answers :
      (db : Db) (m : Result (List String))
      → let h = parsed srv settings x others y db m in
        ((d : GateDecision)
          → h.notice ≡ resolved d
          → (parts : List String) × (m ≡ ok parts) × Asks parts db d)
        × (may_have_decided h.notice ≡ false → Untouched db h.db)
  read-Answers db (err e) = (λ d h. absurd cc, λ _. inl refl)
  read-Answers db (ok parts) =
      let answers = decide_parts-Answers parts db in
      (λ d h. (parts, refl, answers.decides d h), answers.otherwise)

  -- When `/gate` answers that a gate is decided, the decision is the one that the command asks for,
  -- about the job, the gate and the run of the only listed gate whose job begins with the prefix, which
  -- has 8 characters at least; whatever calls of the controller came between.
  pub handle_gate-decides :
      (raw_args : String) (db : Db) (d : GateDecision)
      → (handle_gate srv settings x others y raw_args db).notice ≡ resolved d
      → Read raw_args db d
  unfolding handle_gate
  handle_gate-decides raw_args db = (read-Answers db (shlex_split raw_args)).0

  -- When `/gate` answers that nothing was decided, it has changed nothing: the database is as it was,
  -- or as the calls of the controller that came between have left it.
  pub handle_gate-refused :
      (raw_args : String) (db : Db)
      → may_have_decided (handle_gate srv settings x others y raw_args db).notice ≡ false
      → Untouched db (handle_gate srv settings x others y raw_args db).db
  unfolding handle_gate
  handle_gate-refused raw_args db = (read-Answers db (shlex_split raw_args)).1
