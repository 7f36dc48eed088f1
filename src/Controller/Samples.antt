-- ===== src/Controller/Samples.antt =====
-- Concrete workers, tasks, envelopes and histories for the tests.
use dvk_claude.Common.{ℕ, String, List, [], ◌∷◌}
use dvk_claude.Json.{
  pos, Value, null, integer, string, array, object, Items, nil, cons, Fields, end, field,
}
use dvk_claude.Controller.Schema.{Db, Env, empty}
use dvk_claude.Controller.Machine.{Call, registers_worker, enqueues, claims, reports, run}

abbrev pub texts : List String → Items
texts [] = nil
texts (s ∷ ss) = cons (string s) (texts ss)

abbrev pub digest : String
digest = "0123456789abcdef0123456789abcdef0123456789abcdef0123456789abcdef"

abbrev pub at : ℕ → String → Env
at now id = record {
  now = now;
  job_id = id;
  run_id = id;
  lease_id = "lease";
  lease_token = "token";
  salt = "00";
  sha256 = λ s. digest;
  pbkdf2 = λ t n s. digest;
}

abbrev pub worker : Fields
worker = field "worker_id" (string "w1") (
    field "platform" (string "linux") (
      field "environment" (string "test") (
        field "capabilities" (array (texts ("codex" ∷ [])))
          (field "max_concurrent_jobs" (integer (pos 1)) end))))

abbrev pub task : Fields
task = field "job_id" (string "j1") (
    field "brain"
      (object (
        field "repository" (string "r") (
          field "ref" (string "m")
            (field "commit" (string "c") (field "task_file" (string "/t.md") end)))))
      (field "project" (string "p") (
        field "repository" (string "r") (
          field "ref" (string "m") (
            field "task_type" (string "development") (
              field "platform" (string "linux") (
                field "required_capabilities" (array (texts ("codex" ∷ []))) (
                  field "execution_profile" (string "hermes") (
                    field "human_gates" (array (texts ("deploy" ∷ []))) (
                      field "idempotency_policy" (string "safe_retry")
                        (field "idempotency_key" (string "k1") end)))))))))))

abbrev pub payload : String → Value → Fields
payload status gate = field "status" (string status) (
    field "summary" (string "s") (
      field "gate" gate (
        field "completed" (array nil)
          (field "remaining" (array nil) (field "evidence" (array nil) end)))))

abbrev pub envelope : String → ℕ → Fields → Fields
envelope run_id attempt result = field "job_id" (string "j1") (
    field "run_id" (string run_id) (
      field "attempt" (integer (pos attempt)) (
        field "worker_id" (string "w1") (
          field "lease_id" (string "lease") (
            field "lease_token" (string "token") (
              field "started_at" (integer (pos 0)) (
                field "finished_at" (integer (pos 0)) (
                  field "artifacts" (array nil) (
                    field "hashes" (object end) (
                      field "engine" (string "codex")
                        (field "engine_result" (object result) end)))))))))))

abbrev pub done_envelope : Fields
done_envelope = envelope "r1" 1 (payload "DONE" null)

abbrev pub waiting_envelope : Fields
waiting_envelope = envelope "r1" 1 (payload "WAIT_USER" (string "deploy"))

-- A worker registers and a job is enqueued.
abbrev pub queued_calls : List (Env × Call)
queued_calls = (at 0 "", registers_worker worker) ∷ (at 1 "", enqueues task) ∷ []

abbrev pub queued_db : Db
queued_db = run queued_calls empty

-- A worker registers, a job is enqueued and claimed.
abbrev pub claimed_calls : List (Env × Call)
claimed_calls =
    (at 0 "", registers_worker worker) ∷ (at 1 "", enqueues task) ∷ (at 2 "r1", claims "w1") ∷ []

abbrev pub claimed_db : Db
claimed_db = run claimed_calls empty

-- The run asks for a gate.
abbrev pub waiting_calls : List (Env × Call)
waiting_calls =
    (at 0 "", registers_worker worker)
    ∷ (at 1 "", enqueues task)
    ∷ (at 2 "r1", claims "w1")
    ∷ (at 3 "", reports waiting_envelope)
    ∷ []

abbrev pub waiting_db : Db
waiting_db = run waiting_calls empty
