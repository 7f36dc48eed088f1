-- ===== src/Worker/Tests.antt =====
-- Turns of a worker at concrete inputs, and the theorems at such inputs.
use dvk_claude.Common.{String, ◌≡◌, refl, Bool, true, false, none, some, List, [], ◌∷◌, ◌++◌}
use dvk_claude.Json.{null, string, get_or}
use dvk_claude.Result.{ok, ◌>>=◌, Ensures, IsOk}
use dvk_claude.Controller.Schema.{Db, Env, empty, done}
use dvk_claude.Controller.Claim.{Claim}
use dvk_claude.Controller.Results.{ingest_result}
use dvk_claude.Controller.Validate.Envelope.{Outcome, validate_envelope}
use dvk_claude.Controller.Machine.{
  Call, provisions_token, registers_worker, enqueues, claims, reports, run,
}
use dvk_claude.Controller.Samples.{at, worker, task, digest, done_envelope, payload}
use dvk_claude.Api.{Server, received, token}
use dvk_claude.Controller.Workers.{authenticate_worker}
use dvk_claude.Worker.{AdapterResult, bare_result}
use dvk_claude.Worker.Client
use dvk_claude.Worker.Client.{
  Client, Exchange, Fate, delivered, request_lost, reply_lost, answered, request_to,
}
use dvk_claude.Worker.Once.{
  Memory, forget, remember, Plan, World, Ended, ended, Engines, Execution, returned, worked,
  transport_error, once, next_delay, envelope_of, finished_envelope,
}
use dvk_claude.Worker.Recovery.{IsRecoverable, once-IsRecoverable}
use dvk_claude.Worker.Reports.{IsGated, InContract, finished_envelope-IsOk}
use dvk_claude.Worker.Retries.{Repeated, once-Repeated, once-forgets}

abbrev server : Server
server = record { enrollment_tokens = []; operator_token = none; number_text = λ n. "0" }

abbrev client : Client
client = record { worker_id = "w1"; token = "secret" }

abbrev exchange : Fate → Exchange
exchange f = record { first = at 8 ""; later = at 9 "r1"; fate = f }

abbrev engines : Engines
engines = record {
  github = none;
  adapter = λ task. returned (bare_result "DONE" "s");
  materialize = λ task. returned task;
}

abbrev plan : Fate → Fate → Plan
plan beat report = record {
  heartbeat = exchange beat;
  asking = exchange delivered;
  engines = engines;
  beats = [];
  now = 4;
  sha256 = λ s. digest;
  reporting = exchange report;
}

abbrev claimed_calls : List (Env × Call)
claimed_calls =
    (at 0 "", registers_worker worker)
    ∷ (at 0 "", provisions_token "w1" "secret")
    ∷ (at 1 "", enqueues task)
    ∷ (at 2 "r1", claims "w1")
    ∷ []

abbrev claimed_db : Db
claimed_db = run claimed_calls empty

abbrev reported_db : Db
reported_db = run (claimed_calls ++ (at 3 "", reports done_envelope) ∷ []) empty

abbrev claim : Claim
claim = record {
  job_id = "j1";
  run_id = "r1";
  attempt = 1;
  lease_id = "lease";
  lease_token = "token";
  task = task;
}

abbrev done_outcome : Outcome
done_outcome = record { status = done; payload = payload "DONE" null }

valid : validate_envelope (λ s. digest) done_envelope ≡ ok done_outcome
unfolding validate_envelope ◌>>=◌
valid = refl

accepted : ingest_result (at 3 "") done_envelope claimed_db ≡ ok reported_db
unfolding run ◌>>=◌ dvk_claude.Controller.Claim.claim dvk_claude.Controller.Enqueue.enqueue
    dvk_claude.Controller.Workers.register_worker ingest_result
    dvk_claude.Controller.Workers.provision_worker_token
accepted = refl

-- The worker has not heard that its report was accepted.
abbrev waiting : World
waiting = record { memory = remember (some claim) (some done_envelope); db = reported_db }

abbrev fresh : World
fresh = record { memory = forget; db = claimed_db }

delays :
    next_delay 1000 5000 transport_error
      (next_delay 1000 5000 transport_error (next_delay 1000 5000 transport_error 1000))
    ≡ 5000
unfolding next_delay
delays = refl

fresh-IsRecoverable : IsRecoverable forget
unfolding dvk_claude.Worker.Once.restart
fresh-IsRecoverable = refl

once-IsRecoverable_example :
    IsRecoverable (once server client (plan delivered reply_lost) fresh).world.memory
once-IsRecoverable_example =
    once-IsRecoverable server client (plan delivered reply_lost) fresh fresh-IsRecoverable

in_contract : InContract (bare_result "DONE" "s")
unfolding dvk_claude.Common.member
in_contract = refl

finished_envelope-IsOk_example :
    Ensures
      (λ e.
        (checked : AdapterResult) × (engine : String) × (e
          ≡ envelope_of "w1" claim 4 engine checked)
        × IsGated task checked
        × IsOk (validate_envelope (λ s. digest) e))
      (finished_envelope server client (plan delivered delivered) claim (bare_result "DONE" "s"))
finished_envelope-IsOk_example =
    finished_envelope-IsOk server client (plan delivered delivered) claim (bare_result "DONE" "s")
      in_contract

named : get_or "worker_id" (string "") done_envelope ≡ string "w1"
unfolding get_or
named = refl

authentic :
    authenticate_worker (at 9 "r1") "w1" (token (request_to client "/v1/runs/result")) reported_db
    ≡ ok true
unfolding authenticate_worker token run ◌>>=◌ dvk_claude.Controller.Claim.claim
    dvk_claude.Controller.Enqueue.enqueue dvk_claude.Controller.Workers.register_worker
    ingest_result dvk_claude.Controller.Workers.provision_worker_token
authentic = refl

-- The answer is lost once more.
once-Repeated_example :
    Repeated server client done_envelope done_outcome named waiting
      (once server client (plan delivered reply_lost) waiting)
once-Repeated_example =
    once-Repeated server client done_envelope done_outcome named (at 3 "") claimed_db claim
      (plan delivered reply_lost) waiting valid (λ e. cc) accepted refl refl authentic

beaten :
    (Client.heartbeat_worker server client (exchange delivered) reported_db).reply
    ≡ answered received
unfolding Client.heartbeat_worker dvk_claude.Api.Post.do_post
    dvk_claude.Controller.Workers.heartbeat_worker dvk_claude.Api.bound
    dvk_claude.Controller.Workers.authenticate_worker run ◌>>=◌ dvk_claude.Controller.Claim.claim
    dvk_claude.Controller.Enqueue.enqueue dvk_claude.Controller.Workers.register_worker
    ingest_result dvk_claude.Controller.Workers.provision_worker_token
beaten = refl

once-forgets_example :
    ((once server client (plan delivered delivered) waiting).turn ≡ worked)
    × ((once server client (plan delivered delivered) waiting).world.memory ≡ forget)
once-forgets_example =
    once-forgets server client done_envelope done_outcome named (at 3 "") claimed_db claim
      (plan delivered delivered) waiting received valid (λ e. cc) accepted refl refl authentic
      beaten refl
