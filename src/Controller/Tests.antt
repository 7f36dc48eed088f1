-- ===== src/Controller/Tests.antt =====
-- Runs of the controller at concrete inputs, and the theorems at such inputs.
use mathlib.Core.Option
use dvk_claude.Common.{
  ℕ, String, ◌≡◌, refl, none, some, List, [], ◌∷◌, map, keep, strip, arith, OnSome, if◌then◌else◌,
}
use dvk_claude.Json.{null, pos, integer, string, get, get_or}
use dvk_claude.Result.{ok, err, gate_conflict, stale_result, ◌>>=◌, IsOk, Ensures}
use dvk_claude.Table.{find}
use dvk_claude.Controller.Schema.{
  State, Worker, Run, worker_key, done, running, wait_user, approved, Db, empty, run_key,
}
use dvk_claude.Controller.Workers.{register_worker}
use dvk_claude.Controller.Enqueue.{enqueue}
use dvk_claude.Controller.Claim.{claim, active_runs}
use dvk_claude.Controller.Leases.{is_expired, reconcile_expired_leases}
use dvk_claude.Controller.Results.{ingest_result}
use dvk_claude.Controller.Gates.{resolve_gate, check_actor, check_note, decision_eq, names_other}
use dvk_claude.Controller.Machine.{run}
use dvk_claude.Controller.Invariant.{IsConsistent}
use dvk_claude.Controller.Invariant.Reachable.{history-IsConsistent}
use dvk_claude.Controller.Validate.Envelope.{Outcome, validate_envelope}
use dvk_claude.Controller.Capacity.{WithinCapacity, claim-WithinCapacity}
use dvk_claude.Controller.Late.{late-refused}
use dvk_claude.Controller.Dispatch.{IsDispatch, claim-IsDispatch}
use dvk_claude.Controller.Expiry.{expire, reconcile-expire}
use dvk_claude.Controller.Repeats.Tasks.{enqueue-enqueue}
use dvk_claude.Controller.Repeats.Results.{ingest_result-ingest_result}
use dvk_claude.Controller.Repeats.Decisions.{resolve_gate-resolve_gate}
use dvk_claude.Controller.Samples.{
  worker, payload, digest, done_envelope, at, task, queued_calls, queued_db, claimed_calls,
  claimed_db, waiting_calls, waiting_db,
}

states : Db → List (State × ℕ)
states db = map (λ j. (j.state, j.attempt)) db.jobs

claimed_states : states claimed_db ≡ (running, 1) ∷ []
unfolding states run ◌>>=◌ dvk_claude.Controller.Claim.claim dvk_claude.Controller.Enqueue.enqueue
    dvk_claude.Controller.Workers.register_worker
claimed_states = refl

waiting_states : states waiting_db ≡ (wait_user, 1) ∷ []
unfolding states run ◌>>=◌ dvk_claude.Controller.Claim.claim dvk_claude.Controller.Enqueue.enqueue
    dvk_claude.Controller.Workers.register_worker ingest_result
waiting_states = refl

history-IsConsistent_example : IsConsistent (run waiting_calls empty)
history-IsConsistent_example = history-IsConsistent waiting_calls

task_key : get "idempotency_key" task ≡ some (string "k1")
unfolding get
task_key = refl

enqueue-enqueue_example :
    Ensures (λ r. enqueue (at 9 "") task r.1 ≡ ok r) (enqueue (at 1 "") task empty)
enqueue-enqueue_example = enqueue-enqueue (at 1 "") (at 9 "") task empty "k1" refl task_key refl

operator-IsOk : IsOk (check_actor (string "operator"))
unfolding check_actor strip
operator-IsOk = tt

note-IsOk : IsOk (check_note null)
unfolding check_note
note-IsOk = tt

resolve_gate-resolve_gate_example :
    Ensures
      (λ r.
        resolve_gate
          (at 9 "")
          (string "j1")
          (string "deploy")
          approved
          (string "r1")
          (string "operator")
          null
          r.1
        ≡ (if names_other (string "r1") r.0.source_run_id
            then err (gate_conflict "source_run_id does not match the resolved gate")
            else if decision_eq approved approved
            then ok r
            else err (gate_conflict "gate already resolved")))
      (resolve_gate
        (at 5 "")
        (string "j1")
        (string "deploy")
        approved
        null
        (string "operator")
        null
        waiting_db)
resolve_gate-resolve_gate_example =
    resolve_gate-resolve_gate (at 5 "") (at 9 "") "j1" "deploy" approved approved null (string "r1")
      (string "operator") (string "operator") null null waiting_db operator-IsOk note-IsOk

reconcile-expire_example :
    (new : Db) × (reconcile_expired_leases (at 999999 "") claimed_db
      ≡ ok (keep (is_expired 999999) claimed_db.runs, new))
    × ((id : String)
        → find run_key id new.runs ≡ Option.map (expire 999999) (find run_key id claimed_db.runs))
reconcile-expire_example =
    reconcile-expire (at 999999 "") claimed_db (history-IsConsistent claimed_calls)

claim-IsDispatch_example :
    Ensures
      (λ r. OnSome (IsDispatch (at 2 "r1") "w1" queued_db r.1) r.0)
      (claim (at 2 "r1") "w1" queued_db)
claim-IsDispatch_example =
    claim-IsDispatch (at 2 "r1") "w1" queued_db (history-IsConsistent queued_calls)

abbrev registered : Worker
registered = record {
  worker_id = "w1";
  descriptor = worker;
  registered_at = 0;
  last_heartbeat_at = 0;
}

worker_found : find worker_key "w1" queued_db.workers ≡ some registered
unfolding run ◌>>=◌ enqueue register_worker
worker_found = refl

worker_limit : get_or "max_concurrent_jobs" null worker ≡ integer (pos 1)
unfolding get_or
worker_limit = refl

worker_idle : WithinCapacity "w1" 2 1 queued_db
unfolding active_runs run ◌>>=◌ enqueue register_worker
worker_idle = omega arith

claim-WithinCapacity_example :
    Ensures (λ r. WithinCapacity "w1" 2 1 r.1) (claim (at 2 "r1") "w1" queued_db)
claim-WithinCapacity_example =
    claim-WithinCapacity (at 2 "r1") "w1" registered 1 queued_db worker_found worker_limit
      worker_idle

abbrev started_run : Run
started_run = record {
  run_id = "r1";
  job_id = "j1";
  worker_id = "w1";
  attempt = 1;
  lease_id = "lease";
  lease_token = "token";
  state = running;
  claimed_at = 2;
  lease_expires_at = 180002;
  result = none;
}

run_found : find run_key "r1" claimed_db.runs ≡ some started_run
unfolding run ◌>>=◌ claim enqueue register_worker
run_found = refl

abbrev done_outcome : Outcome
done_outcome = record { status = done; payload = payload "DONE" null }

envelope_valid : validate_envelope (λ s. digest) done_envelope ≡ ok done_outcome
unfolding validate_envelope ◌>>=◌
envelope_valid = refl

run_named : get "run_id" done_envelope ≡ some (string "r1")
unfolding get
run_named = refl

late-refused_example :
    (new : Db) × (reconcile_expired_leases (at 999999 "") claimed_db
      ≡ ok (keep (is_expired 999999) claimed_db.runs, new))
    × (ingest_result (at 1000000 "") done_envelope new
        ≡ err (stale_result "run is stale or unknown"))
late-refused_example =
    late-refused (at 999999 "") (at 1000000 "") claimed_db done_envelope done_outcome "r1"
      started_run (history-IsConsistent claimed_calls) envelope_valid run_named run_found refl

ingested : IsOk (ingest_result (at 5 "") done_envelope claimed_db)
unfolding ingest_result validate_envelope ◌>>=◌ claim enqueue register_worker run
ingested = tt

ingest_result-ingest_result_example :
    Ensures
      (λ new. ingest_result (at 9 "") done_envelope new ≡ ok new)
      (ingest_result (at 5 "") done_envelope claimed_db)
ingest_result-ingest_result_example =
    ingest_result-ingest_result (at 5 "") (at 9 "") done_envelope done_outcome claimed_db refl
      envelope_valid (λ e. cc)
