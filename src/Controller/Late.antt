-- ===== src/Controller/Late.antt =====
-- A result that arrives after its lease has run out.
use mathlib.Core.Option
use dvk_claude.Common.{ℕ, String, ◌≡◌, refl, ◌∙◌, true, some, List, keep}
use dvk_claude.Json.{Fields, string, get}
use dvk_claude.Result.{ok, err, stale_result, ◌>>=◌}
use dvk_claude.Table.{find}
use dvk_claude.Controller.Schema.{Run, Db, Env, run_key}
use dvk_claude.Controller.Validate.Envelope.{Outcome, validate_envelope}
use dvk_claude.Controller.Leases.{is_expired, mark_stale, reconcile_expired_leases}
use dvk_claude.Controller.Results.{ingest_result, ingest_new, find_run}
use dvk_claude.Controller.Invariant.{IsConsistent}
use dvk_claude.Controller.Expiry.{expire, reconcile-expire}

found_stale :
    (id : String) (r : Run) (envelope : Fields) (db : Db)
    → get "run_id" envelope ≡ some (string id)
    → find run_key id db.runs ≡ some (mark_stale r)
    → find_run (get "run_id" envelope) db.runs ≡ some (mark_stale r)
found_stale id r envelope db g f = rw (g, f) refl

stale-refused :
    (env : Env) (envelope : Fields) (o : Outcome) (r : Run) (db : Db)
    → validate_envelope env.sha256 envelope ≡ ok o
    → find_run (get "run_id" envelope) db.runs ≡ some (mark_stale r)
    → ingest_result env envelope db ≡ err (stale_result "run is stale or unknown")
unfolding ingest_result ingest_new ◌>>=◌
stale-refused env envelope o r db v f = rw (v, f) refl

expired_mark :
    (now : ℕ) (id : String) (r : Run) (runs new : List Run)
    → find run_key id new ≡ Option.map (expire now) (find run_key id runs)
    → find run_key id runs ≡ some r
    → is_expired now r ≡ true
    → find run_key id new ≡ some (mark_stale r)
expired_mark now id r runs new e f x = e ∙ rw (f, x) refl

-- On a database in agreement, once a run's lease has run out and `reconcile_expired_leases` has been
-- called, every valid envelope that reports this run is refused as stale.
pub late-refused :
    (env later : Env) (db : Db) (envelope : Fields) (o : Outcome) (id : String) (r : Run)
    → IsConsistent db
    → validate_envelope later.sha256 envelope ≡ ok o
    → get "run_id" envelope ≡ some (string id)
    → find run_key id db.runs ≡ some r
    → is_expired env.now r ≡ true
    → (new : Db) × (reconcile_expired_leases env db ≡ ok (keep (is_expired env.now) db.runs, new))
      × (ingest_result later envelope new ≡ err (stale_result "run is stale or unknown"))
late-refused env later db envelope o id r c v g f x =
    let (new, e, spec) = reconcile-expire env db c in
    (
      new,
      e,
      stale-refused later envelope o r new v (
          found_stale id r envelope new g
            (expired_mark env.now id r db.runs new.runs (spec id) f x)),
    )
