-- ===== src/Worker/Once.antt =====
-- `WorkerDaemon.once` and `run` of worker.py: one turn of the worker, and what it keeps on disk.
use dvk_claude.Common.{
  ℕ, ◌*◌, String, Bool, true, false, ◌||◌, Option, none, some, List, [], ◌∷◌, ltb, leb, is_empty,
  if◌then◌else◌,
}
use dvk_claude.Json.{
  Value, pos, integer, string, array, object, nil, Fields, end, field, get, get_or, contains,
  in_set, null, put,
}
use dvk_claude.Result.{type_error, Result, ok, err, ◌>>=◌}
use dvk_claude.Controller.Schema.{Db}
use dvk_claude.Controller.Claim.{Claim}
use dvk_claude.Api.{Server, claimed}
use dvk_claude.Worker.{
  AdapterResult, bare_result, result_payload, normalize_gate_result, normalize_artifacts,
  artifact_list, hash_table,
}
use dvk_claude.Worker.Client
use dvk_claude.Worker.Client.{Client, Exchange, Reply, answered, stale, failed, Called}

-- The fields of the daemon, and the state file.
pub record Memory : Type 0 where
  pub active_claim : Option Claim
  pub pending_envelope : Option Fields
  pub saved : Option (Claim × Option Fields)

-- `_save_state`
abbrev pub save_state : Option Claim → Option Fields → Option (Claim × Option Fields)
save_state none pending = none
save_state (some c) pending = some (c, pending)

-- What the daemon reads from the file when it starts.
unfoldable pub restart : Memory → Memory
restart m = elim m.saved [
  | none ↦ record { active_claim = none; pending_envelope = none; saved = none }
  | some (c, pending) ↦ record {
    active_claim = some c;
    pending_envelope = pending;
    saved = m.saved;
  }
]

-- `self.pending_envelope = pending; self.active_claim = claim; self._save_state(claim, pending)`
abbrev pub remember : Option Claim → Option Fields → Memory
remember c pending = record {
  active_claim = c;
  pending_envelope = pending;
  saved = save_state c pending;
}

abbrev pub forget : Memory
forget = remember none none

-- What an adapter, a handler or the preparation of a task does.
pub data Execution {ℓ} (A : Type ℓ) : Type ℓ where
  returned : A → Execution A
  value_error : Execution A
  os_error : Execution A
  other_error : Execution A

-- The engines of the worker, and the files that it writes for a task.
pub record Engines : Type 0 where
  pub github : Option (Fields → Execution AdapterResult)
  pub adapter : Fields → Execution AdapterResult
  pub materialize : Fields → Execution Fields

abbrev then_do {ℓ κ} : {A : Type ℓ} {B : Type κ} → Execution A → (A → Execution B) → Execution B
then_do (returned a) f = f a
then_do value_error f = value_error
then_do os_error f = os_error
then_do other_error f = other_error

-- The identity of the claim, which `_prepare_task` adds to the task.
abbrev runtime : Claim → Fields
runtime c =
    field "job_id" (string c.job_id)
      (field "run_id" (string c.run_id) (field "attempt" (integer (pos c.attempt)) end))

-- `_prepare_task`
unfoldable pub prepare_task : Engines → Claim → Execution Fields
unfolding put
prepare_task engines c =
    if is_empty c.job_id || is_empty c.run_id || ltb c.attempt 1
    then value_error
    else then_do (engines.materialize c.task)
        (λ task. returned (put "_hermes_runtime" (object (runtime c)) task))

abbrev github_of : Option (Fields → Execution AdapterResult) → Fields → Execution AdapterResult
github_of none task = returned (bare_result "BLOCKED" "github_api: integration is not configured")
github_of (some handler) task = handler task

unfoldable pub is_integrated : Fields → Result Bool
unfolding contains get_or
is_integrated task = contains "github_api" (get_or "integrations" (array nil) task)

abbrev chosen : Engines → Claim → Result Bool → Execution AdapterResult
chosen engines c (ok true) = github_of engines.github c.task
chosen engines c (ok false) = then_do (prepare_task engines c) engines.adapter
chosen engines c (err e) = other_error

-- `execute_claim`: what it leaves in the box, which is nothing after another exception.
unfoldable pub execute_claim : Engines → Claim → Option AdapterResult
unfolding prepare_task is_integrated
execute_claim engines c = elim (chosen engines c (is_integrated c.task)) [
  | returned r ↦ some r
  | value_error ↦ some (bare_result "BLOCKED" "worker task preparation blocked")
  | os_error ↦ some (bare_result "FAILED" "worker task preparation failed")
  | other_error ↦ none
]

abbrev pub known_engines : List String
known_engines = "codex" ∷ "claude" ∷ "hybrid" ∷ "native" ∷ "brainstorm" ∷ []

abbrev pub default_engine : Fields → Result String
default_engine task =
    contains "codex" (get_or "required_capabilities" (array nil) task) >>= λ codex.
    ok (if codex then "codex" else "native")

abbrev pub text_of : Value → Result String
text_of (string s) = ok s
text_of v = err type_error

-- `_execution_engine_for_task`; an engine that is a container cannot be looked up in a set.
unfoldable pub execution_engine : Fields → Result String
unfolding in_set contains get get_or
execution_engine task =
    let explicit = get_or "execution_engine" null task in
    in_set explicit known_engines >>= λ is_known.
    if is_known then text_of explicit else default_engine task

unfoldable pub engine_label : Fields → Result String
unfolding is_integrated execution_engine
engine_label task = is_integrated task >>= λ integrated.
    if integrated then ok "github_api" else execution_engine task

-- The envelope of a result.
unfoldable pub envelope_of : String → Claim → ℕ → String → AdapterResult → Fields
unfolding result_payload
envelope_of worker_id c now engine r = field "job_id" (string c.job_id) (
    field "run_id" (string c.run_id) (
      field "attempt" (integer (pos c.attempt)) (
        field "lease_id" (string c.lease_id) (
          field "lease_token" (string c.lease_token) (
            field "worker_id" (string worker_id) (
              field "started_at" (integer (pos now)) (
                field "finished_at" (integer (pos now)) (
                  field "engine" (string engine) (
                    field "engine_result" (object (result_payload r)) (
                      field "artifacts" (artifact_list r.artifacts)
                        (field "hashes" (hash_table r.hashes) end)))))))))))

-- A StaleLeaseTransportError or a TransportError of the heartbeats while the engine works.
pub record Beat : Type 0 where
  pub worker : Exchange
  pub run : Exchange

-- What the environment does in one turn.
pub record Plan : Type 0 where
  pub heartbeat : Exchange
  pub asking : Exchange
  pub engines : Engines
  pub beats : List Beat
  pub now : ℕ
  pub sha256 : String → String
  pub reporting : Exchange

-- The daemon, and the database of the controller that it talks to.
pub record World : Type 0 where
  pub memory : Memory
  pub db : Db

-- `False`, `True`, and the exceptions that end the turn: TransportError, and any other.
pub data Turn : Type 0 where
  idle worked transport_error crashed : Turn

pub record Ended : Type 0 where
  pub turn : Turn
  pub world : World

abbrev pub ended : Turn → Memory → Db → Ended
ended turn memory db = record { turn = turn; world = record { memory = memory; db = db } }

-- What the answer to a report leaves.
abbrev pub reported : Memory → Reply → Db → Ended
reported m (answered shown) db = ended worked forget db
reported m stale db = ended worked forget db
reported m failed db = ended transport_error m db

module _ (srv : Server) (client : Client) where
  -- The report of an envelope that is pending.
  unfoldable pub report : Exchange → Memory → Fields → Db → Ended
  unfolding Client.ingest
  report x m envelope db =
      let sent = Client.ingest srv client x envelope db in reported m sent.reply sent.db

  pub record Lease : Type 0 where
    pub is_lost : Bool
    pub db : Db

  -- The heartbeats while the thread is alive: only a stale lease ends them.
  unfoldable pub keep_lease : Claim → List Beat → Db → Lease
  unfolding Client.heartbeat_worker Client.heartbeat_run
  keep_lease c [] db = record { is_lost = false; db = db }
  keep_lease c (b ∷ bs) db =
      let first = Client.heartbeat_worker srv client b.worker db in
      let second = Client.heartbeat_run srv client b.run c first.db in
      elim first.reply [
        | stale ↦ record { is_lost = true; db = first.db }
        | failed ↦ keep_lease c bs first.db
        | answered shown ↦ elim second.reply [
          | stale ↦ record { is_lost = true; db = second.db }
          | failed ↦ keep_lease c bs second.db
          | answered again ↦ keep_lease c bs second.db
        ]
      ]

  -- The envelope of what the engine returned; an exception here ends the turn.
  unfoldable pub finished_envelope : Plan → Claim → AdapterResult → Result Fields
  unfolding normalize_gate_result normalize_artifacts engine_label envelope_of
  finished_envelope p c r = do
    gated ← normalize_gate_result r c.task
    checked ← normalize_artifacts p.sha256 gated
    engine ← engine_label c.task
    ok (envelope_of client.worker_id c p.now engine checked)

  abbrev pub send_envelope : Plan → Claim → Memory → Result Fields → Db → Ended
  send_envelope p c m (ok envelope) db =
      report p.reporting (remember (some c) (some envelope)) envelope db
  send_envelope p c m (err e) db = ended crashed m db

  -- A claim whose engine has ended: the envelope is saved before it is sent.
  unfoldable pub finish_claim : Plan → Claim → Memory → Option AdapterResult → Db → Ended
  unfolding finished_envelope report
  finish_claim p c m none db = ended crashed m db
  finish_claim p c m (some r) db = send_envelope p c m (finished_envelope p c r) db

  unfoldable pub work : Plan → Claim → Memory → Db → Ended
  unfolding keep_lease execute_claim finish_claim
  work p c m db =
      let lease = keep_lease c p.beats db in
      if lease.is_lost
      then ended worked forget lease.db
      else finish_claim p c m (execute_claim p.engines c) lease.db

  -- The claim at hand, and what is pending for it.
  unfoldable pub serve_claim : Plan → Claim → Option Fields → Db → Ended
  unfolding report work
  serve_claim p c none db = work p c (remember (some c) none) db
  serve_claim p c (some envelope) db =
      report p.reporting (remember (some c) (some envelope)) envelope db

  abbrev pub next_claim : Plan → Memory → Reply → Db → Ended
  next_claim p m (answered (claimed (some c))) db = serve_claim p c m.pending_envelope db
  next_claim p m (answered (claimed none)) db = ended idle m db
  next_claim p m (answered shown) db = ended crashed m db
  next_claim p m stale db = ended transport_error m db
  next_claim p m failed db = ended transport_error m db

  abbrev pub find_claim : Plan → Memory → Option Claim → Db → Ended
  find_claim p m (some c) db = serve_claim p c m.pending_envelope db
  find_claim p m none db =
      let asked = Client.claim srv client p.asking db in next_claim p m asked.reply asked.db

  abbrev pub after_beat : Plan → Memory → Reply → Db → Ended
  after_beat p m (answered shown) db = find_claim p m m.active_claim db
  after_beat p m stale db = ended transport_error m db
  after_beat p m failed db = ended transport_error m db

  -- `once`
  unfoldable pub once : Plan → World → Ended
  unfolding Client.heartbeat_worker Client.claim serve_claim
  once p w =
      let beat = Client.heartbeat_worker srv client p.heartbeat w.db in
      after_beat p w.memory beat.reply beat.db

-- The delay after a turn of `run`, in milliseconds.
unfoldable pub next_delay : ℕ → ℕ → Turn → ℕ → ℕ
next_delay backoff limit transport_error delay = if leb (delay * 2) limit then delay * 2 else limit
next_delay backoff limit turn delay = backoff
