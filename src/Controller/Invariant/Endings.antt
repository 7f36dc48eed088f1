-- ===== src/Controller/Invariant/Endings.antt =====
-- `ingest_result` keeps jobs and runs in agreement.
use dvk_claude.Common.{
  String, ◌≡◌, refl, true, Option, none, some, List, arith, eq_iff, eq_refl, Option-cases, inl, inr,
  ap, subst, sym,
}
use dvk_claude.Json.{null, string, object, Fields, Value, get, get_or}
use dvk_claude.Result.{Ensures, Ensures-ok, Ensures-err, Ensures-if, Ensures-bind}
use dvk_claude.Table.{find}
use dvk_claude.Table.Laws.{key-find}
use dvk_claude.Controller.Schema.{State, running, wait_user, Job, Run, Db, Env, job_key, run_key}
use dvk_claude.Controller.Invariant.{IsConsistent, KeepsDb}
use dvk_claude.Controller.Schema.{is_terminal, event}
use dvk_claude.Controller.Validate.Envelope.{
  Outcome, validate_envelope, check_result, read_outcome, status_of,
}
use dvk_claude.Controller.Leases.{release_job}
use dvk_claude.Controller.Results.{
  Verdict, verdict, ingest_result, ingest_new, open_run, active_job, find_run, settle, check_wait,
  wait_for, no_gate, end_run, end_job, store_result, log_result, is_replay, waiting_event,
  gate_is_approved, is_active,
}
use dvk_claude.Controller.Invariant.Steps.{IsClosed, end-Consistent}

status_of-terminal : (v : Value) (s : State) → status_of v ≡ some s → is_terminal s ≡ true
unfolding status_of
status_of-terminal (string t) s h = ground arith
status_of-terminal _ s h = cc

abbrev pub IsTerminal : Outcome → Type 0
IsTerminal o = is_terminal o.status ≡ true

read_outcome-IsTerminal :
    (fs : Fields) (v : Value) (s : Option State)
    → status_of v ≡ s
    → Ensures IsTerminal (read_outcome fs s)
read_outcome-IsTerminal fs v none e = Ensures-err _
read_outcome-IsTerminal fs v (some s) e = Ensures-ok _ (status_of-terminal v s e)

check_result-IsTerminal : (v : Value) → Ensures IsTerminal (check_result v)
unfolding check_result
check_result-IsTerminal (object fs) = Ensures-bind _ _ λ _ _.
    Ensures-bind _ _
      λ _ _. Ensures-bind _ _ λ _ _. read_outcome-IsTerminal fs (get_or "status" null fs) _ refl
check_result-IsTerminal _ = Ensures-err _

-- A validated result has a status of `RESULT_STATUSES`.
pub validate_envelope-IsTerminal :
    (sha256 : String → String) (envelope : Fields)
    → Ensures IsTerminal (validate_envelope sha256 envelope)
unfolding validate_envelope
validate_envelope-IsTerminal sha256 envelope = Ensures-bind _ _ λ _ _. Ensures-bind _ _ λ _ _.
    Ensures-bind _ _
      λ _ _. Ensures-bind _ _ λ _ _. Ensures-bind _ _ λ payload _. check_result-IsTerminal payload

-- Settling a result decides what to write, and writes to the events alone.
pub record Settles (db : Db) (v : Verdict) : Type 0 where
  pub same_jobs : v.db.jobs ≡ db.jobs
  pub same_runs : v.db.runs ≡ db.runs
  pub ends : is_terminal v.outcome ≡ true

wait_for-Settles :
    (env : Env) (r : Run) (gate : String) (envelope : Fields) (o : Outcome) (db : Db)
    → Ensures (Settles db) (wait_for env r gate envelope o db)
unfolding wait_for
wait_for-Settles env r gate envelope o db =
    Ensures-if (gate_is_approved r.job_id gate db) _ _
      (λ _.
        Ensures-bind _ _
          λ _ _. Ensures-ok _ (record { same_jobs = refl; same_runs = refl; ends = refl }))
      (λ _. Ensures-ok _ (record { same_jobs = refl; same_runs = refl; ends = refl }))

check_wait-Settles :
    (env : Env) (r : Run) (gate declared : Value) (envelope : Fields) (o : Outcome) (db : Db)
    → Ensures (Settles db) (check_wait env r gate declared envelope o db)
unfolding check_wait
check_wait-Settles env r (string gate) declared envelope o db = Ensures-bind _ _ λ known _.
    Ensures-if known _ _ (λ _. wait_for-Settles env r gate envelope o db) (λ _. Ensures-err _)
check_wait-Settles env r _ declared envelope o db = Ensures-err _

no_gate-Settles :
    (g : Value) (s : State) (envelope : Fields) (db : Db)
    → is_terminal s ≡ true
    → Ensures (Settles db) (no_gate g (verdict s null envelope db))
no_gate-Settles null s envelope db t =
    Ensures-ok _ (record { same_jobs = refl; same_runs = refl; ends = t })
no_gate-Settles _ s envelope db t = Ensures-err _

pub settle-Settles :
    (env : Env) (r : Run) (task envelope : Fields) (payload : Fields) (status : State) (db : Db)
    → is_terminal status ≡ true
    → Ensures
        (Settles db)
        (settle env r task envelope (record { status = status; payload = payload }) db)
unfolding settle
settle-Settles env r task envelope payload wait_user db t =
    check_wait-Settles env r _ _ envelope _ db
settle-Settles env r task envelope payload s db t = no_gate-Settles _ _ envelope db t

end_run-IsClosed :
    (s : State) (envelope : Fields) (r : Run)
    → is_terminal s ≡ true
    → IsClosed r (end_run s envelope r)
end_run-IsClosed s envelope r t = record {
  same_id = refl;
  same_job = refl;
  same_attempt = refl;
  not_running = λ e. ground arith;
}

pub open_run-eq-ok :
    (envelope : Fields) (found : Option Run)
    → Ensures (λ r. (found ≡ some r) × (r.state ≡ running)) (open_run envelope found)
unfolding open_run
open_run-eq-ok envelope found = record { holds = λ r h. ground arith }

is_active-some : (id : String) (o : Option String) → is_active id o ≡ true → o ≡ some id
is_active-some id none h = cc
is_active-some id (some x) h = ap some ((eq_iff x id).0 h)

active_job-eq-ok :
    (r : Run) (db : Db)
    → Ensures
        (λ j. (find job_key r.job_id db.jobs ≡ some j) × (j.active_run_id ≡ some r.run_id))
        (active_job r db)
unfolding active_job
active_job-eq-ok r db = elim (Option-cases (find job_key r.job_id db.jobs)) [
  | inl e ↦ rw (e, active_job) (Ensures-err _)
  | inr (j, e) ↦
      rw (e, active_job)
        (Ensures-if (is_active r.run_id j.active_run_id) _ _
          (λ a. Ensures-ok j (refl, is_active-some r.run_id j.active_run_id a))
          (λ _. Ensures-err _))
]

find_run-find :
    (v : Option Value) (runs : List Run) (r : Run)
    → find_run v runs ≡ some r
    → find run_key r.run_id runs ≡ some r
find_run-find (some (string id)) runs r h =
    subst (λ k. find run_key k runs ≡ some r) (sym (key-find run_key id runs r h)) h
find_run-find _ runs r h = cc

waiting_event-Keeps :
    (env : Env) (r : Run) (v : Verdict) (s : State) (db : Db)
    → IsConsistent db
    → IsConsistent (waiting_event env r v s db)
unfolding event
waiting_event-Keeps env r v wait_user db c = c
waiting_event-Keeps env r v s db c = c

log_result-Keeps :
    (env : Env) (r : Run) (engine : Value) (v : Verdict) (db : Db)
    → IsConsistent db
    → IsConsistent (log_result env r engine v db)
unfolding log_result
log_result-Keeps env r engine v db c = waiting_event-Keeps env r v v.outcome _ c

end_job-release_job :
    (s : State) (id : String) (j : Job)
    → j.active_run_id ≡ some id
    → end_job s j ≡ release_job s id j
unfolding release_job
end_job-release_job s id j a = ground (arith, eq_refl id)

store_result-Keeps :
    (r : Run) (j : Job) (v : Verdict) (db : Db)
    → find run_key r.run_id db.runs ≡ some r
    → find job_key r.job_id db.jobs ≡ some j
    → j.active_run_id ≡ some r.run_id
    → Settles db v
    → IsConsistent db
    → IsConsistent (store_result r v)
unfolding store_result
store_result-Keeps r j v db found found_job active settled c =
    rw (settled.same_jobs, settled.same_runs)
      (end-Consistent v.outcome r.run_id r.job_id db.jobs db.runs r (end_run v.outcome v.envelope)
        (end_job v.outcome) (λ x. end_run-IsClosed v.outcome v.envelope x settled.ends) (λ x. refl)
        (λ x e. end_job-release_job v.outcome r.run_id x (ground (arith, found_job, active, e)))
        (ground (arith, settled.ends)) found refl c)

ingest_new-Keeps :
    (env : Env) (envelope : Fields) (o : Outcome) (id : Option Value) (db : Db)
    → IsTerminal o
    → IsConsistent db
    → KeepsDb (ingest_new env envelope o (find_run id db.runs) db)
unfolding ingest_new
ingest_new-Keeps env envelope o id db t c = Ensures-bind _ _ λ r opened.
    Ensures-bind _ _ λ j active. Ensures-bind _ _ λ engine _. Ensures-bind _ _ λ v s.
      let (e, _) = (open_run-eq-ok envelope (find_run id db.runs)).holds r opened in
      let (job, a) = (active_job-eq-ok r db).holds j active in
      Ensures-ok _ (
        log_result-Keeps env r engine v (store_result r v) (
          store_result-Keeps r j v db (find_run-find id db.runs r e) job a
            ((settle-Settles env r j.task envelope o.payload o.status db t).holds v s) c))

pub ingest_result-Keeps :
    (env : Env) (envelope : Fields) (db : Db)
    → IsConsistent db
    → KeepsDb (ingest_result env envelope db)
unfolding ingest_result
ingest_result-Keeps env envelope db c = Ensures-bind _ _ λ o valid.
    Ensures-if (is_replay envelope (find_run (get "run_id" envelope) db.runs)) _ _
      (λ _. Ensures-ok _ c)
      (λ _.
        ingest_new-Keeps env envelope o (get "run_id" envelope) db
          ((validate_envelope-IsTerminal env.sha256 envelope).holds o valid) c)
