-- ===== src/Controller/Repeats/Decisions.antt =====
-- A gate that is decided again.
use dvk_claude.Common.{
  String, ◌≡◌, refl, sym, ap, ◌∙◌, subst, true, Option, none, some, List, [], ◌∷◌, ◌++◌, eq_refl,
  arith, Option-cases, Bool-cases, inl, inr, if◌then◌else◌,
}
use dvk_claude.Result.{
  Result, ok, err, gate_conflict, ◌>>=◌, IsOk, IsOk-eq-ok, raise_if-eq-ok, Ensures, Ensures-ok,
  Ensures-err, Ensures-bind,
}
use dvk_claude.Json.{Value, string}
use dvk_claude.Table.{find, update}
use dvk_claude.Table.Laws.{key-find, find-update}
use dvk_claude.Controller.Schema.{
  State, Job, Decision, approved, rejected, GateDecision, Db, Env, job_key, event,
}
use dvk_claude.Controller.Gates.{
  resolve_gate, decide_gate, repeat_decision, record_decision, new_decision, find_decision,
  resolve_job, log_decision, decision_eq, names_other, required_text, check_actor, check_note,
}
use dvk_claude.Controller.Repeats.Tasks.{first-append}

-- The gate of the job has been decided, as `d` says.
abbrev pub IsDecided : String → String → Decision → GateDecision → Db → Type 0
IsDecided id gate decision d db =
    ((j : Job) × (find job_key id db.jobs ≡ some j))
    × (find_decision id gate db.gate_decisions ≡ some d)
    × (decision_eq d.decision decision ≡ true)

repeat-IsDecided :
    (id gate : String) (j : Job) (d : GateDecision) (decision : Decision) (source : Value) (db : Db)
    → find job_key id db.jobs ≡ some j
    → find_decision id gate db.gate_decisions ≡ some d
    → Ensures (λ r. IsDecided id gate decision r.0 r.1) (repeat_decision d decision source db)
unfolding repeat_decision
repeat-IsDecided id gate j d decision source db f e =
    Ensures-bind _ _
      λ _ _. Ensures-bind _ _ λ _ n. Ensures-ok _ ((j, f), e, ground (arith, raise_if-eq-ok _ _ n))

pub decision_eq-eq : (d e : Decision) → decision_eq d e ≡ true → d ≡ e
decision_eq-eq approved approved h = refl
decision_eq-eq rejected rejected h = refl
decision_eq-eq approved rejected h = cc
decision_eq-eq rejected approved h = cc

decision_eq_refl : (d : Decision) → decision_eq d d ≡ true
decision_eq_refl approved = refl
decision_eq_refl rejected = refl

find_decision-append :
    (id gate : String) (d : GateDecision) (ds : List GateDecision)
    → d.job_id ≡ id
    → d.gate ≡ gate
    → find_decision id gate ds ≡ none
    → find_decision id gate (ds ++ d ∷ []) ≡ some d
unfolding find_decision
find_decision-append id gate d ds e f n =
    first-append _ ds d n ∙ rw (e, f, eq_refl id, eq_refl gate) refl

find-resolved :
    (id : String) (job : Job) (jobs : List Job) (f : Job → Job)
    → ((j : Job) → job_key (f j) ≡ job_key j)
    → find job_key id jobs ≡ some job
    → find job_key id (update job_key job.job_id f jobs) ≡ some (f job)
find-resolved id job jobs f keeps e = ground (
  arith,
  find-update job_key id job.job_id f jobs keeps,
  key-find job_key id jobs job e,
  eq_refl id,
)

resolve_job-key : (target : State) (j : Job) → job_key (resolve_job target j) ≡ job_key j
unfolding resolve_job
resolve_job-key target j = ground arith

record-IsDecided :
    (env : Env) (id gate : String) (job : Job) (decision : Decision) (actor : String)
    (why : Option String) (source : String) (db : Db)
    → find job_key id db.jobs ≡ some job
    → find_decision id gate db.gate_decisions ≡ none
    → let d = new_decision env job gate decision actor why source in
      IsDecided id gate decision d (record_decision env d db).1
unfolding record_decision resolve_job log_decision event
record-IsDecided env id gate job decision actor why source db f n = (
  (_, find-resolved id job db.jobs _ (resolve_job-key _) f),
  find_decision-append id gate _ db.gate_decisions (key-find job_key id db.jobs job f) refl n,
  decision_eq_refl decision,
)

decide-IsDecided :
    (env : Env) (id gate : String) (job : Job) (decision : Decision) (source : Value)
    (actor : String) (why : Option String) (db : Db)
    → find job_key id db.jobs ≡ some job
    → Ensures
        (λ r. IsDecided id gate decision r.0 r.1)
        (decide_gate env job gate decision source actor why db)
unfolding decide_gate
decide-IsDecided env id gate job decision source actor why db f =
    let same = key-find job_key id db.jobs job f in
    elim (Option-cases (find_decision job.job_id gate db.gate_decisions)) [
      | inl e ↦
          rw (e, decide_gate)
            (Ensures-bind _ _ λ run_id _. Ensures-ok _ (
              record-IsDecided env id gate job decision actor why run_id db f
                (subst (λ i. find_decision i gate db.gate_decisions ≡ none) same e)))
      | inr (d, e) ↦
          rw (e, decide_gate)
            (repeat-IsDecided id gate job d decision source db f
              (subst (λ i. find_decision i gate db.gate_decisions ≡ some d) same e))
    ]

pub required_text-eq : (s t : String) → required_text (string s) ≡ ok t → s ≡ t
required_text-eq s t h = ground (arith, h)

-- Both names are given, and the gate is decided.
abbrev pub IsAnswered : String → String → Decision → GateDecision → Db → Type 0
IsAnswered id gate decision d db =
    (required_text (string id) ≡ ok id)
    × (required_text (string gate) ≡ ok gate)
    × IsDecided id gate decision d db

pub resolve_gate-IsAnswered :
    (env : Env) (id gate : String) (decision : Decision) (source actor why : Value) (db : Db)
    → Ensures
        (λ r. IsAnswered id gate decision r.0 r.1)
        (resolve_gate env (string id) (string gate) decision source actor why db)
unfolding resolve_gate
resolve_gate-IsAnswered env id gate decision source actor why db = Ensures-bind _ _ λ i e.
    Ensures-bind _ _ λ name n. Ensures-bind _ _ λ who _. Ensures-bind _ _ λ reason _.
      let same = required_text-eq id i e in
      let same_gate = required_text-eq gate name n in
      elim (Option-cases (find job_key i db.jobs)) [
        | inl f ↦ rw f (Ensures-err _)
        | inr (job, f) ↦ rw f (record {
          holds = λ r h. (
            e ∙ ap ok (sym same),
            n ∙ ap ok (sym same_gate),
            rw (same, same_gate)
                ((decide-IsDecided env i name job decision source who reason db f).holds r h),
          );
        })
      ]

-- What a second decision on the gate is answered with.
abbrev pub reply : Decision → Value → GateDecision → Db → Result (GateDecision × Db)
reply other source d db =
    if names_other source d.source_run_id
    then err (gate_conflict "source_run_id does not match the resolved gate")
    else if decision_eq d.decision other
    then ok (d, db)
    else err (gate_conflict "gate already resolved")

repeat_decision-reply :
    (d : GateDecision) (other : Decision) (source : Value) (db : Db)
    → repeat_decision d other source db ≡ reply other source d db
unfolding repeat_decision ◌>>=◌
repeat_decision-reply d other source db = elim (Bool-cases (names_other source d.source_run_id)) [
  | inl n ↦ rw n refl
  | inr n ↦ elim (Bool-cases (decision_eq d.decision other)) [
    | inl e ↦ rw (n, e) refl
    | inr e ↦ rw (n, e) refl
  ]
]

decide_again :
    (env : Env) (gate : String) (j : Job) (other : Decision) (source : Value) (who : String)
    (reason : Option String) (d : GateDecision) (db : Db)
    → find_decision j.job_id gate db.gate_decisions ≡ some d
    → decide_gate env j gate other source who reason db ≡ reply other source d db
unfolding decide_gate
decide_again env gate j other source who reason d db found =
    rw (found, decide_gate) (repeat_decision-reply d other source db)

-- A decision on a gate that is decided.
answered_again :
    (later : Env) (id gate : String) (decision other : Decision) (source actor why : Value)
    (who : String) (reason : Option String) (d : GateDecision) (db : Db)
    → IsAnswered id gate decision d db
    → check_actor actor ≡ ok who
    → check_note why ≡ ok reason
    → resolve_gate later (string id) (string gate) other source actor why db
      ≡ reply other source d db
unfolding resolve_gate ◌>>=◌
answered_again later id gate decision other source actor why who reason d db k a w =
    let (i, g, ((j, f), e, q)) = k in
    let found =
      subst (λ k. find_decision k gate db.gate_decisions ≡ some d)
        (sym (key-find job_key id db.jobs j f)) e in
    rw (i, g, a, w, f) (decide_again later gate j other source who reason d db found)

-- When an operator has approved or rejected a gate, and the next call sends the same decision, with any
-- valid actor and note, and with the run that the first was about or none, it is answered with the first
-- decision and changes nothing. One that names another run is refused as a conflict, and so is the
-- opposite decision.
pub resolve_gate-resolve_gate :
    (env later : Env) (id gate : String) (decision other : Decision)
    (source source' actor actor' why why' : Value) (db : Db)
    → IsOk (check_actor actor')
    → IsOk (check_note why')
    → Ensures
        (λ r. resolve_gate later (string id) (string gate) other source' actor' why' r.1 ≡ (
          if names_other source' r.0.source_run_id
          then err (gate_conflict "source_run_id does not match the resolved gate")
          else if decision_eq decision other
          then ok r
          else err (gate_conflict "gate already resolved")))
        (resolve_gate env (string id) (string gate) decision source actor why db)
resolve_gate-resolve_gate env later id gate decision other source source' actor actor' why why' db a
      w =
    let (who, p) = IsOk-eq-ok (check_actor actor') a in
    let (reason, q) = IsOk-eq-ok (check_note why') w in
    record {
      holds = λ r h.
          let k = (resolve_gate-IsAnswered env id gate decision source actor why db).holds r h in
          answered_again later id gate decision other source' actor' why' who reason r.0 r.1 k p q
          ∙ rw (decision_eq-eq r.0.decision decision k.2.2) refl;
    }
