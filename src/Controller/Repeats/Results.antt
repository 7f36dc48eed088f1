-- ===== src/Controller/Repeats/Results.antt =====
-- A result that is reported again.
use dvk_claude.Common.{◌≡◌, ◌≢◌, refl, ap, ◌∙◌, true, Option, some, List, arith, eq_refl}
use dvk_claude.Json.{Value, null, string, object, Fields, get}
use dvk_claude.Json.Equality.{same_json_self}
use dvk_claude.Result.{ok, ◌>>=◌, Ensures, Ensures-ok, Ensures-err, Ensures-if, Ensures-bind}
use dvk_claude.Table.{update}
use dvk_claude.Table.Laws.{find-update, key-find}
use dvk_claude.Controller.Schema.{State, wait_user, is_terminal, Run, Db, Env, run_key, event}
use dvk_claude.Controller.Validate.Envelope.{Outcome, validate_envelope}
use dvk_claude.Controller.Results.{
  Verdict, ingest_result, ingest_new, find_run, settle, no_gate, end_run, store_result, log_result,
  is_replay, waiting_event,
}
use dvk_claude.Controller.Invariant.Endings.{
  validate_envelope-IsTerminal, settle-Settles, open_run-eq-ok,
}

no_gate-envelope : (g : Value) (v : Verdict) → Ensures (λ w. w.envelope ≡ v.envelope) (no_gate g v)
no_gate-envelope null v = Ensures-ok _ refl
no_gate-envelope g v = Ensures-err _

settle-envelope :
    (env : Env) (r : Run) (task envelope payload : Fields) (status : State) (db : Db)
    → status ≢ wait_user
    → Ensures
        (λ v. v.envelope ≡ envelope)
        (settle env r task envelope (record { status = status; payload = payload }) db)
unfolding settle
settle-envelope env r task envelope payload wait_user db n = absurd (n refl)
settle-envelope env r task envelope payload s db n = no_gate-envelope _ _

waiting_event-runs :
    (env : Env) (r : Run) (v : Verdict) (s : State) (db : Db)
    → (waiting_event env r v s db).runs ≡ db.runs
unfolding event
waiting_event-runs env r v wait_user db = refl
waiting_event-runs env r v s db = refl

log_result-runs :
    (env : Env) (r : Run) (engine : Value) (v : Verdict) (db : Db)
    → (log_result env r engine v db).runs ≡ db.runs
unfolding log_result event
log_result-runs env r engine v db = waiting_event-runs env r v v.outcome _

find_run-update :
    (id : Option Value) (runs : List Run) (r : Run) (s : State) (envelope : Fields)
    → find_run id runs ≡ some r
    → find_run id (update run_key r.run_id (end_run s envelope) runs) ≡ some (end_run s envelope r)
find_run-update (some (string k)) runs r s envelope h = ground (
  arith,
  find-update run_key k r.run_id (end_run s envelope) runs (λ x. refl),
  key-find run_key k runs r h,
  eq_refl k,
)
find_run-update v runs r s envelope h = cc

-- The run holds the envelope as its result.
abbrev Holds : Option Value → Fields → Db → Type 0
Holds id envelope db =
    (r : Run) × (s : State) × (find_run id db.runs ≡ some (end_run s envelope r))
    × (is_terminal s ≡ true)

ingest_new-Holds :
    (env : Env) (envelope : Fields) (o : Outcome) (id : Option Value) (db : Db)
    → is_terminal o.status ≡ true
    → o.status ≢ wait_user
    → Ensures (Holds id envelope) (ingest_new env envelope o (find_run id db.runs) db)
unfolding ingest_new store_result
ingest_new-Holds env envelope o id db t n = Ensures-bind _ _ λ r opened. Ensures-bind _ _ λ j _.
    Ensures-bind _ _ λ engine _. Ensures-bind _ _ λ v s.
      let settled = (settle-Settles env r j.task envelope o.payload o.status db t).holds v s in
      let same = (settle-envelope env r j.task envelope o.payload o.status db n).holds v s in
      let found = (open_run-eq-ok envelope (find_run id db.runs)).holds r opened in
      Ensures-ok _ (
        r,
        v.outcome,
        ap (find_run id) (log_result-runs env r engine v (store_result r v))
            ∙ ap (λ rs. find_run id (update run_key r.run_id (end_run v.outcome v.envelope) rs))
                settled.same_runs
            ∙ find_run-update id db.runs r v.outcome v.envelope found.0
            ∙ ap (λ e. some (end_run v.outcome e r)) same,
        settled.ends,
      )

Holds-is_replay :
    (id : Option Value) (envelope : Fields) (db : Db)
    → Holds id envelope db
    → is_replay envelope (find_run id db.runs) ≡ true
unfolding is_replay
Holds-is_replay id envelope db (r, s, f, t) = rw (f, t, same_json_self (object envelope)) refl

pub known_result :
    (env : Env) (envelope : Fields) (o : Outcome) (db : Db)
    → validate_envelope env.sha256 envelope ≡ ok o
    → is_replay envelope (find_run (get "run_id" envelope) db.runs) ≡ true
    → ingest_result env envelope db ≡ ok db
unfolding ingest_result ◌>>=◌
known_result env envelope o db v p = rw (v, p) refl

-- The controller has the result of the envelope.
abbrev pub IsKnown : Fields → Db → Type 0
IsKnown envelope db = is_replay envelope (find_run (get "run_id" envelope) db.runs) ≡ true

pub ingest_result-IsKnown :
    (env : Env) (envelope : Fields) (o : Outcome) (db : Db)
    → validate_envelope env.sha256 envelope ≡ ok o
    → o.status ≢ wait_user
    → Ensures (IsKnown envelope) (ingest_result env envelope db)
unfolding ingest_result ◌>>=◌
ingest_result-IsKnown env envelope o db v n =
    let t = (validate_envelope-IsTerminal env.sha256 envelope).holds o v in
    rw v (
      Ensures-if (is_replay envelope (find_run (get "run_id" envelope) db.runs)) _ _
        (λ p. Ensures-ok _ p)
        (λ _. record {
          holds = λ new h.
              Holds-is_replay (get "run_id" envelope) envelope new
                ((ingest_new-Holds env envelope o (get "run_id" envelope) db t n).holds new h);
        }))

-- A result that does not wait for the user may be reported again, at any later time and with the
-- same hash function: the call succeeds and leaves the database as it is.
pub ingest_result-ingest_result :
    (env later : Env) (envelope : Fields) (o : Outcome) (db : Db)
    → later.sha256 ≡ env.sha256
    → validate_envelope env.sha256 envelope ≡ ok o
    → o.status ≢ wait_user
    → Ensures (λ new. ingest_result later envelope new ≡ ok new) (ingest_result env envelope db)
ingest_result-ingest_result env later envelope o db same v n = record {
  holds = λ new h.
      known_result later envelope o new (ap (λ f. validate_envelope f envelope) same ∙ v)
        ((ingest_result-IsKnown env envelope o db v n).holds new h);
}
