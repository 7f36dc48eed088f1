-- ===== src/Bridge/Tests.antt =====
-- Commands of an operator at concrete inputs.
use dvk_claude.Common.{String, ◌≡◌, refl, ap, true, none, some, List, [], ◌∷◌}
use dvk_claude.Json.{null, string}
use dvk_claude.Result.{ok, ◌>>=◌}
use dvk_claude.Controller.Schema.{
  Job, Run, Db, Env, wait_user, approved, rejected, queued, GateDecision, empty,
}
use dvk_claude.Controller.Machine.{Call, enqueues, resolves, run}
use dvk_claude.Controller.Samples.{task, at, waiting_envelope}
use dvk_claude.Api.{Server}
use dvk_claude.Worker.Client.{Exchange, delivered}
use dvk_claude.Bridge.Shlex.{shlex_split, words}
use dvk_claude.Bridge.{Settings, changed, resolved, none_pending, handle_gate, handle_gates}
use dvk_claude.Bridge.Sent.{may_have_decided}
use dvk_claude.Bridge.Decided.{Read, Untouched, handle_gate-decides, handle_gate-refused}

quoted_words :
    shlex_split "approve  \"a \\\" b\"'c d' \\  ''" ≡ ok ("approve" ∷ "a \" bc d" ∷ " " ∷ "" ∷ [])
unfolding words dvk_claude.Common.onto_head
quoted_words = refl

abbrev server : Server
server = record { enrollment_tokens = []; operator_token = some "boss"; number_text = λ n. "0" }

abbrev settings : Settings
settings = record { operator_token = some "boss"; gate_actor = none }

abbrev exchange : Exchange
exchange = record { first = at 5 ""; later = at 6 ""; fate = delivered }

abbrev waiting_job : Job
waiting_job = record {
  job_id = "job-00000001";
  task = task;
  state = wait_user;
  attempt = 1;
  active_run_id = none;
  idempotency_key = none;
  idempotent = true;
  dependency_job_id = none;
  created_at = 1;
}

abbrev waiting_run : Run
waiting_run = record {
  run_id = "r1";
  job_id = "job-00000001";
  worker_id = "w1";
  attempt = 1;
  lease_id = "lease";
  lease_token = "token";
  state = wait_user;
  claimed_at = 2;
  lease_expires_at = 9;
  result = some waiting_envelope;
}

abbrev waiting : Db
waiting = record empty { jobs = waiting_job ∷ []; runs = waiting_run ∷ [] }

abbrev decision : GateDecision
decision = record {
  job_id = "job-00000001";
  gate = "deploy";
  decision = approved;
  actor = "telegram-operator";
  note = some "go on";
  decided_at = 6;
  source_run_id = "r1";
  disposition = queued;
}

-- Another task is enqueued between the two requests.
abbrev busy : List (Env × Call)
busy = (at 5 "", enqueues task) ∷ []

-- Another operator rejects the gate between the two requests.
abbrev overtaken : List (Env × Call)
overtaken =
    (
      at 5 "",
      resolves (string "job-00000001") (string "deploy") rejected (string "r1") (string "other")
          null,
    )
    ∷ []

approves :
    (handle_gate server settings exchange busy exchange "approve job-0000 go on" waiting).notice
    ≡ resolved decision
unfolding handle_gate run dvk_claude.Controller.Machine.step dvk_claude.Controller.Enqueue.enqueue
    ◌>>=◌
approves = refl

handle_gate-decides_example :
    Read server settings exchange busy exchange "approve job-0000 go on" waiting decision
handle_gate-decides_example =
    handle_gate-decides server settings exchange busy exchange "approve job-0000 go on" waiting
      decision approves

comes_late :
    (handle_gate server settings exchange overtaken exchange "approve job-0000" waiting).notice
    ≡ changed
unfolding handle_gate run dvk_claude.Controller.Machine.step
    dvk_claude.Controller.Gates.resolve_gate ◌>>=◌
comes_late = refl

handle_gate-refused_example :
    Untouched server settings exchange overtaken exchange waiting
      (handle_gate server settings exchange overtaken exchange "approve job-0000" waiting).db
handle_gate-refused_example =
    handle_gate-refused server settings exchange overtaken exchange "approve job-0000" waiting
      (ap may_have_decided comes_late)

-- A chat without a waiting job.
nothing_pending : handle_gates server settings exchange "" empty ≡ none_pending
unfolding handle_gates ◌>>=◌
nothing_pending = refl
