-- ===== src/Controller/Named.antt =====
-- What a decision of `_resolve_gate` is about, when the operator names the run.
use dvk_claude.Common.{String, ◌≡◌, sym, false, Option, none, some, List, [], ◌∷◌, eq_iff, arith}
use dvk_claude.Result.{
  ok, err, controller_error, ◌>>=◌, raise_if-eq-ok, Ensures, Ensures-ok, Ensures-err, Ensures-bind,
  Ensures-if,
}
use dvk_claude.Json.{Value, string}
use dvk_claude.Table.{find}
use dvk_claude.Controller.Schema.{Job, Decision, GateDecision, Db, Env, job_key}
use dvk_claude.Controller.Gates.{
  resolve_gate, decide_gate, repeat_decision, record_decision, new_decision, find_decision,
  waiting_source, names_other, matching_run,
}
use dvk_claude.Controller.Repeats.Decisions.{resolve_gate-IsAnswered, decision_eq-eq}

find_decision-names :
    (id gate : String) (ds : List GateDecision) (d : GateDecision)
    → find_decision id gate ds ≡ some d
    → (d.job_id ≡ id) × (d.gate ≡ gate)
unfolding find_decision
find_decision-names id gate [] d h = absurd cc
find_decision-names id gate (e ∷ ds) d h =
    grind (arith, h, find_decision-names id gate ds d, eq_iff e.job_id id, eq_iff e.gate gate)

not-other : (s t : String) → names_other (string s) t ≡ false → s ≡ t
not-other s t h = ground (arith, h, eq_iff s t)

matching_run-names :
    (s : String) (o : Option String) → Ensures (λ run. run ≡ s) (matching_run (string s) o)
matching_run-names s none = Ensures-err _
matching_run-names s (some run) =
    Ensures-if (names_other (string s) run) _ _ (λ _. Ensures-err _)
      (λ e. Ensures-ok run (sym (not-other s run e)))

waiting_source-names :
    (job : Job) (gate s : String) (db : Db)
    → Ensures (λ run. run ≡ s) (waiting_source job gate (string s) db)
unfolding waiting_source
waiting_source-names job gate s db = Ensures-bind _ _ λ _ _. Ensures-bind _ _ λ _ _.
    Ensures-bind _ _ λ _ _.
      Ensures-bind _ _
        λ current _. Ensures-bind _ _ λ _ _. matching_run-names s current.source_run_id

-- The decision is about the run that was named.
abbrev IsAbout : String → GateDecision × Db → Type 0
IsAbout s r = r.0.source_run_id ≡ s

decide_gate-IsAbout :
    (env : Env) (job : Job) (gate s : String) (decision : Decision) (actor : String)
    (why : Option String) (db : Db)
    → Ensures (IsAbout s) (decide_gate env job gate decision (string s) actor why db)
unfolding decide_gate record_decision repeat_decision
decide_gate-IsAbout env job gate s decision actor why db =
    by_found (find_decision job.job_id gate db.gate_decisions)
  where
    by_found :
        (o : Option GateDecision)
        → Ensures (IsAbout s) (elim o [
          | some d ↦ repeat_decision d decision (string s) db
          | none ↦ waiting_source job gate (string s) db >>= λ run_id.
              ok (record_decision env (new_decision env job gate decision actor why run_id) db)
        ])
    by_found (some d) = Ensures-bind _ _ λ _ n.
        Ensures-bind _ _
          λ _ _. Ensures-ok _ (sym (not-other s d.source_run_id (raise_if-eq-ok _ _ n)))
    by_found none =
        Ensures-bind _ _
          λ run_id e. Ensures-ok _ ((waiting_source-names job gate s db).holds run_id e)

resolve_gate-IsAbout :
    (env : Env) (id gate s : String) (decision : Decision) (actor why : Value) (db : Db)
    → Ensures
        (IsAbout s)
        (resolve_gate env (string id) (string gate) decision (string s) actor why db)
unfolding resolve_gate
resolve_gate-IsAbout env id gate s decision actor why db = Ensures-bind _ _ λ i _.
    Ensures-bind _ _ λ name _.
      Ensures-bind _ _
        λ who _. Ensures-bind _ _ λ reason _. by_job (find job_key i db.jobs) name who reason
  where
    by_job :
        (o : Option Job) (name who : String) (reason : Option String)
        → Ensures (IsAbout s) (elim o [
          | none ↦ err (controller_error "unknown job")
          | some job ↦ decide_gate env job name decision (string s) who reason db
        ])
    by_job none name who reason = Ensures-err _
    by_job (some job) name who reason = decide_gate-IsAbout env job name s decision who reason db

-- What a decision says: of which job, gate and run, and what was decided.
pub record Says (id gate s : String) (decision : Decision) (d : GateDecision) : Type 0 where
  pub of_job : d.job_id ≡ id
  pub of_gate : d.gate ≡ gate
  pub of_run : d.source_run_id ≡ s
  pub is_decided : d.decision ≡ decision

pub resolve_gate-Says :
    (env : Env) (id gate s : String) (decision : Decision) (actor why : Value) (db : Db)
    → Ensures
        (λ r. Says id gate s decision r.0)
        (resolve_gate env (string id) (string gate) decision (string s) actor why db)
resolve_gate-Says env id gate s decision actor why db = record {
  holds = λ r h.
      let (_, _, (_, found, eq)) =
        (resolve_gate-IsAnswered env id gate decision (string s) actor why db).holds r h in
      let (j, g) = find_decision-names id gate r.1.gate_decisions r.0 found in
      record {
        of_job = j;
        of_gate = g;
        of_run = (resolve_gate-IsAbout env id gate s decision actor why db).holds r h;
        is_decided = decision_eq-eq r.0.decision decision eq;
      };
}
