-- ===== src/Controller/Invariant/Resolutions.antt =====
-- `resolve_gate` keeps jobs and runs in agreement.
use dvk_claude.Common.{String, ◌≢◌, Bool, Option, none, some, arith, Option-cases, inl, inr}
use dvk_claude.Json.{Value}
use dvk_claude.Result.{err, controller_error, Ensures-ok, Ensures-err, Ensures-bind}
use dvk_claude.Table.{find}
use dvk_claude.Controller.Schema.{running, Job, Db, Env, job_key}
use dvk_claude.Controller.Invariant.{IsConsistent, Keeps}
use dvk_claude.Controller.Schema.{Decision, GateDecision}
use dvk_claude.Controller.Gates.{
  resolve_gate, decide_gate, record_decision, new_decision, disposition_of, repeat_decision,
  find_decision,
}
use dvk_claude.Controller.Invariant.Starts.{resolve-Consistent}

disposition_of-ne-running : (d : Decision) (b : Bool) → disposition_of d b ≢ running
disposition_of-ne-running d b e = ground arith

record_decision-Keeps :
    (env : Env) (d : GateDecision) (db : Db)
    → d.disposition ≢ running
    → IsConsistent db
    → IsConsistent (record_decision env d db).1
unfolding record_decision
record_decision-Keeps env d db closed c =
    resolve-Consistent d.disposition d.job_id db.jobs db.runs closed c

repeat_decision-Keeps :
    (d : GateDecision) (decision : Decision) (source : Value) (db : Db)
    → IsConsistent db
    → Keeps (repeat_decision d decision source db)
unfolding repeat_decision
repeat_decision-Keeps d decision source db c =
    Ensures-bind _ _ λ _ _. Ensures-bind _ _ λ _ _. Ensures-ok _ c

decide_gate-Keeps :
    (env : Env) (job : Job) (gate : String) (decision : Decision) (source : Value) (actor : String)
    (note : Option String) (db : Db)
    → IsConsistent db
    → Keeps (decide_gate env job gate decision source actor note db)
unfolding decide_gate
decide_gate-Keeps env job gate decision source actor note db c =
    elim (Option-cases (find_decision job.job_id gate db.gate_decisions)) [
      | inl e ↦
          rw (e, decide_gate)
            (Ensures-bind _ _ λ run_id _. Ensures-ok _ (
              record_decision-Keeps env (new_decision env job gate decision actor note run_id) db
                (disposition_of-ne-running decision job.idempotent) c))
      | inr (d, e) ↦ rw (e, decide_gate) (repeat_decision-Keeps d decision source db c)
    ]

pub resolve_gate-Keeps :
    (env : Env) (job_id gate : Value) (decision : Decision) (source actor note : Value) (db : Db)
    → IsConsistent db
    → Keeps (resolve_gate env job_id gate decision source actor note db)
unfolding resolve_gate
resolve_gate-Keeps env job_id gate decision source actor note db c = Ensures-bind _ _ λ id _.
    Ensures-bind _ _
      λ name _. Ensures-bind _ _ λ who _. Ensures-bind _ _ λ why _. looked_up id name who why
  where
    looked_up :
        (id name who : String) (why : Option String)
        → Keeps (elim (find job_key id db.jobs) [
          | none ↦ err (controller_error "unknown job")
          | some job ↦ decide_gate env job name decision source who why db
        ])
    looked_up id name who why = elim (Option-cases (find job_key id db.jobs)) [
      | inl e ↦ rw e (Ensures-err _)
      | inr (job, e) ↦ rw e (decide_gate-Keeps env job name decision source who why db c)
    ]
