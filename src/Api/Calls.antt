-- ===== src/Api/Calls.antt =====
-- What a POST does to the database, as calls of the controller that its credential is good for.
use dvk_claude.Common.{
  String, ◌≡◌, refl, sym, ap, ◌∙◌, Bool, true, false, Option, none, some, List, [], ◌∷◌, ◌==◌, ◌⊎◌,
  inl, inr, ◌=?◌, on_branches,
}
use dvk_claude.Json.{Value, null, string, Fields, get_or}
use dvk_claude.Result.{Result, ok, err, stale_result, ◌>>=◌, Ensures, Ensures-ok, Ensures-bind}
use dvk_claude.Controller.Schema.{Db, Env}
use dvk_claude.Controller.Workers.{
  register_worker, provision_worker_token, heartbeat_worker, authenticate_worker,
}
use dvk_claude.Controller.Claim.{claim}
use dvk_claude.Controller.Leases.{heartbeat_run}
use dvk_claude.Controller.Results.{ingest_result}
use dvk_claude.Controller.Gates.{resolve_gate}
use dvk_claude.Controller.Machine.{
  Call, registers_worker, provisions_token, beats, claims, renews, reports, resolves, after,
  after_db, step, run,
}
use dvk_claude.Api.{
  Server, Request, Payload, Answer, Outcome, unchanged, denied, token, bound, worker_auth,
  operator_auth, error_answer, finish, finish_db, when, received, claimed, renewed, ingested,
  replies, crashes, not_found, decided, enrolled,
}
use dvk_claude.Api.Post.{
  enrollment_token, is_bootstrap, register, bootstrap, enrol_auth, enrol, decision_of, resolve,
  renew_bound, renew, post_worker, as_named, as_worker, is_gate_path, do_post,
}

-- The calls of a worker: its own heartbeat and claims, and the leases and results that it holds the
-- secrets of.
pub data IsWorkerCall (worker_id : String) (body : Fields) (c : Call) : Type 0 where
  beat : c ≡ beats worker_id → IsWorkerCall worker_id body c
  asks : c ≡ claims worker_id → IsWorkerCall worker_id body c
  renewal : (r l t : String) → c ≡ renews r l t → IsWorkerCall worker_id body c
  report : c ≡ reports body → IsWorkerCall worker_id body c

-- The calls that the credential of a request permits.
pub data Permits (first later : Env) (srv : Server) (r : Request) (body : Fields) (db : Db)
    (calls : List (Env × Call)) : Type 0 where
  idle : calls ≡ [] → Permits first later srv r body db calls
  operator :
      (job_id gate source actor note : Value)
      → operator_auth srv r ≡ ok true
      → calls ≡ (later, resolves job_id gate (decision_of r.path) source actor note) ∷ []
      → Permits first later srv r body db calls
  worker :
      (id : String) (c : Call)
      → bound srv (get_or "worker_id" (string "") body) ≡ ok (some id)
      → authenticate_worker later id (token r) db ≡ ok true
      → IsWorkerCall id body c
      → calls ≡ (later, c) ∷ []
      → Permits first later srv r body db calls
  known :
      worker_auth first srv r (get_or "worker_id" (string "") body) db ≡ ok true
      → calls ≡ (later, registers_worker body) ∷ []
      → Permits first later srv r body db calls
  newcomer :
      (id expected : String)
      → get_or "worker_id" (string "") body ≡ string id
      → enrollment_token srv (string id) ≡ ok expected
      → is_bootstrap expected r ≡ ok true
      → calls ≡ (first, provisions_token id (token r)) ∷ (later, registers_worker body) ∷ []
      → Permits first later srv r body db calls

abbrev pub succeeds : Answer → Bool
succeeds (replies code shown) = code =? 200
succeeds (crashes e) = false

-- The database as it was, but for a credential of a newcomer.
abbrev pub Kept : Env → Server → Request → Fields → Db → Db → Type 0
Kept first srv r body db new =
    (new ≡ db)
    ⊎ ((id : String) × (expected : String) × (get_or "worker_id" (string "") body ≡ string id)
        × (enrollment_token srv (string id) ≡ ok expected)
        × (is_bootstrap expected r ≡ ok true)
        × (provision_worker_token first id (token r) db ≡ ok new))

-- The calls that a POST makes, the database that they leave, and what a refusal leaves.
pub record Serves (first later : Env) (srv : Server) (r : Request) (body : Fields) (db : Db)
    (o : Outcome) : Type 0 where
  pub calls : List (Env × Call)
  pub permitted : Permits first later srv r body db calls
  pub result : o.db ≡ run calls db
  pub refused : succeeds o.answer ≡ false → Kept first srv r body db o.db

finish-after {ℓ} :
    {A : Type ℓ} (show : A → Payload) (db : Db) (m : Result (A × Db))
    → (finish show db m).db ≡ after db m
unfolding finish
finish-after show db (ok (a, new)) = refl
finish-after show db (err e) = refl

finish_db-after :
    (shown : Payload) (db : Db) (m : Result Db) → (finish_db shown db m).db ≡ after_db db m
unfolding finish_db
finish_db-after shown db (ok new) = refl
finish_db-after shown db (err e) = refl

finish-refused {ℓ} :
    {A : Type ℓ} (show : A → Payload) (db : Db) (m : Result (A × Db))
    → succeeds (finish show db m).answer ≡ false
    → (finish show db m).db ≡ db
unfolding finish
finish-refused show db (ok (a, new)) h = cc
finish-refused show db (err e) h = refl

finish_db-refused :
    (shown : Payload) (db : Db) (m : Result Db)
    → succeeds (finish_db shown db m).answer ≡ false
    → (finish_db shown db m).db ≡ db
unfolding finish_db
finish_db-refused shown db (ok new) h = cc
finish_db-refused shown db (err e) h = refl

module _ (first later : Env) (srv : Server) (r : Request) (body : Fields) (db : Db) where
  abbrev Served : Outcome → Type 0
  Served = Serves first later srv r body db

  unchanged-Served : (a : Answer) → Served (unchanged db a)
  unfolding run
  unchanged-Served a = record {
    calls = [];
    permitted = idle refl;
    result = refl;
    refused = λ _. inl refl;
  }

  when-Served : (m : Result Bool) (o : Outcome) → (m ≡ ok true → Served o) → Served (when db m o)
  unfolding when
  when-Served (ok true) o h = h refl
  when-Served (ok false) o h = unchanged-Served denied
  when-Served (err e) o h = unchanged-Served (error_answer e)

  -- An outcome that one call explains.
  one_call :
      (o : Outcome) (c : Call)
      → Permits first later srv r body db ((later, c) ∷ [])
      → o.db ≡ step (later, c) db
      → (succeeds o.answer ≡ false → o.db ≡ db)
      → Served o
  unfolding run
  one_call o c p e k = record {
    calls = (later, c) ∷ [];
    permitted = p;
    result = e;
    refused = λ h. inl (k h);
  }

  finish-bind {ℓ κ} :
      {A : Type ℓ} {B : Type κ} (show : A → Payload) (m : Result B) (f : B → Result (A × Db))
      → ((b : B) → Served (finish show db (f b)))
      → Served (finish show db (m >>= f))
  unfolding finish ◌>>=◌
  finish-bind show (ok b) f h = h b
  finish-bind show (err e) f h = unchanged-Served (error_answer e)

  finish_db-bind {κ} :
      {B : Type κ} (shown : Payload) (m : Result B) (f : B → Result Db)
      → ((b : B) → Served (finish_db shown db (f b)))
      → Served (finish_db shown db (m >>= f))
  unfolding finish_db ◌>>=◌
  finish_db-bind shown (ok b) f h = h b
  finish_db-bind shown (err e) f h = unchanged-Served (error_answer e)

  operator_call :
      operator_auth srv r ≡ ok true
      → (job_id gate source actor note : Value)
      → Served (
          finish decided db
            (resolve_gate later job_id gate (decision_of r.path) source actor note db))
  unfolding step
  operator_call auth job_id gate source actor note =
      let c = resolves job_id gate (decision_of r.path) source actor note in
      one_call _ c (operator job_id gate source actor note auth refl)
        (finish-after decided db
          (resolve_gate later job_id gate (decision_of r.path) source actor note db))
        (finish-refused decided db
          (resolve_gate later job_id gate (decision_of r.path) source actor note db))

  resolve-Served :
      operator_auth srv r ≡ ok true
      → Served (finish decided db (resolve later (decision_of r.path) body db))
  unfolding resolve
  resolve-Served auth = finish-bind decided _ _ λ job_id. finish-bind decided _ _ λ gate.
      finish-bind decided _ _ λ source.
        finish-bind decided _ _
          λ actor. operator_call auth job_id gate source actor (get_or "note" null body)

  register-Served :
      worker_auth first srv r (get_or "worker_id" (string "") body) db ≡ ok true
      → Served (register later body db)
  unfolding register step
  register-Served auth =
      one_call (register later body db) (registers_worker body) (known auth refl)
        (finish-after enrolled db (register_worker later body db))
        (finish-refused enrolled db (register_worker later body db))

  newcomer_call :
      (id expected : String) (m : Result Db)
      → get_or "worker_id" (string "") body ≡ string id
      → enrollment_token srv (string id) ≡ ok expected
      → is_bootstrap expected r ≡ ok true
      → provision_worker_token first id (token r) db ≡ m
      → Served (elim m [ ok new ↦ register later body new | err e ↦ unchanged db (error_answer e) ])
  unfolding run step register
  newcomer_call id expected (err e) g t b p = unchanged-Served (error_answer e)
  newcomer_call id expected (ok new) g t b p = record {
    calls = (first, provisions_token id (token r)) ∷ (later, registers_worker body) ∷ [];
    permitted = newcomer id expected g t b refl;
    result = rw p (finish-after enrolled new (register_worker later body new));
    refused = λ h. inr (
      id,
      expected,
      g,
      t,
      b,
      p ∙ ap ok (sym (finish-refused enrolled new (register_worker later body new) h)),
    );
  }

  bootstrap-Served :
      (v : Value) (expected : String)
      → get_or "worker_id" (string "") body ≡ v
      → enrollment_token srv v ≡ ok expected
      → is_bootstrap expected r ≡ ok true
      → Served (bootstrap first later v r body db)
  unfolding bootstrap
  bootstrap-Served (string id) expected g t b =
      newcomer_call id expected (provision_worker_token first id (token r) db) g t b refl
  bootstrap-Served v expected g t b = unchanged-Served _

  module _ (id : String) (named : bound srv (get_or "worker_id" (string "") body) ≡ ok (some id))
      (auth : authenticate_worker later id (token r) db ≡ ok true) where
    worker_call :
        (o : Outcome) (c : Call)
        → IsWorkerCall id body c
        → o.db ≡ step (later, c) db
        → (succeeds o.answer ≡ false → o.db ≡ db)
        → Served o
    worker_call o c w e k = one_call o c (worker id c named auth w refl) e k

    renew_bound-Served :
        (x l t : Option String) → Served (finish_db renewed db (renew_bound later x l t db))
    unfolding renew_bound step finish_db
    renew_bound-Served (some x) (some l) (some t) =
        worker_call _ (renews x l t) (renewal x l t refl)
          (finish_db-after renewed db (heartbeat_run later x l t db))
          (finish_db-refused renewed db (heartbeat_run later x l t db))
    renew_bound-Served x l t = unchanged-Served (error_answer (stale_result "lease is not active"))

    renew-Served : Served (finish_db renewed db (renew later srv body db))
    unfolding renew
    renew-Served = finish_db-bind renewed _ _ λ run_id. finish_db-bind renewed _ _ λ lease_id.
        finish_db-bind renewed _ _ λ lease_token. finish_db-bind renewed _ _ λ x.
          finish_db-bind renewed _ _ λ l. finish_db-bind renewed _ _ λ t. renew_bound-Served x l t

    post_worker-Served : Served (post_worker later srv r.path id body db)
    unfolding post_worker step
    post_worker-Served =
        on_branches Served (r.path == "/v1/workers/heartbeat") _ _
          (λ _.
            worker_call _ (beats id) (beat refl)
              (finish_db-after received db (heartbeat_worker later id db))
              (finish_db-refused received db (heartbeat_worker later id db)))
          λ _.
            on_branches Served (r.path == "/v1/jobs/claim") _ _
              (λ _.
                worker_call _ (claims id) (asks refl) (finish-after claimed db (claim later id db))
                  (finish-refused claimed db (claim later id db)))
              λ _.
                on_branches Served (r.path == "/v1/runs/heartbeat") _ _ (λ _. renew-Served)
                  λ _.
                    on_branches Served (r.path == "/v1/runs/result") _ _
                      (λ _.
                        worker_call _ (reports body) (report refl)
                          (finish_db-after ingested db (ingest_result later body db))
                          (finish_db-refused ingested db (ingest_result later body db)))
                      (λ _. unchanged-Served (replies 404 not_found))

  -- What the two tests of an enrolment have found.
  abbrev Found : Value → Bool × Bool → Type 0
  Found v (is_known, may_enrol) =
      (worker_auth first srv r v db ≡ ok is_known)
      × ((expected : String) × (enrollment_token srv v ≡ ok expected)
          × (is_bootstrap expected r ≡ ok may_enrol))

  enrol_auth-Found : (v : Value) → Ensures (Found v) (enrol_auth first srv r v db)
  unfolding enrol_auth
  enrol_auth-Found v = Ensures-bind _ _ λ expected t. Ensures-bind _ _ λ is_known k.
      Ensures-bind _ _ λ may_enrol b. Ensures-ok (is_known, may_enrol) (k, (expected, t, b))

  enrol_as-Served :
      (v : Value) (m : Result (Bool × Bool))
      → get_or "worker_id" (string "") body ≡ v
      → enrol_auth first srv r v db ≡ m
      → Served (elim m [
        | ok (true, may_enrol) ↦ register later body db
        | ok (false, true) ↦ bootstrap first later v r body db
        | ok (false, false) ↦ unchanged db denied
        | err e ↦ unchanged db (error_answer e)
      ])
  enrol_as-Served v (err e) g h = unchanged-Served (error_answer e)
  enrol_as-Served v (ok (true, may_enrol)) g h =
      register-Served (rw g ((enrol_auth-Found v).holds (true, may_enrol) h).0)
  enrol_as-Served v (ok (false, true)) g h =
      let (expected, t, b) = ((enrol_auth-Found v).holds (false, true) h).1 in
      bootstrap-Served v expected g t b
  enrol_as-Served v (ok (false, false)) g h = unchanged-Served denied

  as_worker_named :
      (m : Result (Option String))
      → bound srv (get_or "worker_id" (string "") body) ≡ m
      → Served (as_named later srv r body db m)
  as_worker_named (err e) h = unchanged-Served (error_answer e)
  as_worker_named (ok none) h = unchanged-Served denied
  as_worker_named (ok (some id)) h =
      when-Served (authenticate_worker later id (token r) db) _ (post_worker-Served id h)

  do_post-Serves : Served (do_post first later srv r body db)
  unfolding do_post enrol as_worker
  do_post-Serves =
      on_branches Served (r.path == "/v1/workers/enrol") _ _
        (λ _. enrol_as-Served (get_or "worker_id" (string "") body) _ refl refl)
        λ _.
          on_branches Served (is_gate_path r.path) _ _
            (λ _. when-Served (operator_auth srv r) _ resolve-Served)
            (λ _. as_worker_named (bound srv (get_or "worker_id" (string "") body)) refl)

  -- Whatever a POST answers, it changes the database as a history of controller calls would that the
  -- credential of the request permits: the operator's decisions, the calls of the worker whose token
  -- it is, the registration of an enrolled worker, and the enrolment of a new one.
  pub do_post-permitted :
      (calls : List (Env × Call)) × Permits first later srv r body db calls
      × ((do_post first later srv r body db).db ≡ run calls db)
  do_post-permitted = (do_post-Serves.calls, do_post-Serves.permitted, do_post-Serves.result)

  -- A POST that is not answered with 200, an exception that closes the connection included, leaves
  -- the database as it was. The exception is an enrolment with the token that the server expects of
  -- the worker: it may have stored the credential, and nothing else.
  pub do_post-refused :
      succeeds (do_post first later srv r body db).answer ≡ false
      → Kept first srv r body db (do_post first later srv r body db).db
  do_post-refused = do_post-Serves.refused
