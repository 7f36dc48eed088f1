-- ===== src/Worker/Retries.antt =====
-- A worker that reports a result again, since it did not hear the answer.
use dvk_claude.Common.{
  String, ◌≡◌, ◌≢◌, refl, sym, ap, ◌∙◌, subst, Bool, true, false, Option, none, some, ◌⊎◌, inl, inr,
  is_some, Bool-cases,
}
use dvk_claude.Json.{string, Fields, end, get_or}
use dvk_claude.Result.{Result, ok, err}
use dvk_claude.Controller.Schema.{Db, Env, wait_user, worker_key}
use dvk_claude.Table.{find}
use dvk_claude.Controller.Claim.{Claim}
use dvk_claude.Controller.Workers.{authenticate_worker, heartbeat_worker}
use dvk_claude.Controller.Results.{ingest_result}
use dvk_claude.Controller.Validate.Envelope.{Outcome, validate_envelope}
use dvk_claude.Controller.Repeats.Results.{IsKnown, known_result, ingest_result-IsKnown}
use dvk_claude.Api
use dvk_claude.Api.{
  Server, Payload, Answer, unchanged, finish_db, when, received, ingested, bound, token,
}
use dvk_claude.Api.Post.{do_post, as_worker, as_named, post_worker}
use dvk_claude.Worker.Client
use dvk_claude.Worker.Client.{
  Client, Fate, delivered, request_lost, reply_lost, Exchange, Reply, answered, stale, failed,
  Called, request_to, call, fated, reply_of, own_body,
}
use dvk_claude.Worker.Once.{
  Memory, remember, forget, Plan, World, worked, transport_error, Ended, ended, reported, report,
  serve_claim, after_beat, once,
}

-- What a heartbeat of the worker leaves alone.
pub record SameWork (new db : Db) : Type 0 where
  pub runs : new.runs ≡ db.runs
  pub jobs : new.jobs ≡ db.jobs
  pub credentials : new.credentials ≡ db.credentials

module _ (srv : Server) (client : Client) where
  same : (db : Db) → SameWork db db
  same db = record { runs = refl; jobs = refl; credentials = refl }

  finish_beat-SameWork :
      (env : Env) (id : String) (db : Db)
      → SameWork (finish_db received db (heartbeat_worker env id db)).db db
  unfolding heartbeat_worker finish_db
  finish_beat-SameWork env id db = elim (Bool-cases (is_some (find worker_key id db.workers))) [
    | inl e ↦ rw e (record { runs = refl; jobs = refl; credentials = refl })
    | inr e ↦ rw e (same db)
  ]

  when-SameWork :
      (db : Db) (may : Result Bool) (o : Api.Outcome)
      → SameWork o.db db
      → SameWork (when db may o).db db
  unfolding when
  when-SameWork db (ok true) o h = h
  when-SameWork db (ok false) o h = same db
  when-SameWork db (err e) o h = same db

  post_beat-SameWork :
      (first later : Env) (body : Fields) (db : Db)
      → SameWork (do_post first later srv (request_to client "/v1/workers/heartbeat") body db).db db
  unfolding do_post as_worker post_worker
  post_beat-SameWork first later body db = named (bound srv (get_or "worker_id" (string "") body))
    where
      named :
          (id : Result (Option String))
          → SameWork
              (as_named later srv (request_to client "/v1/workers/heartbeat") body db id).db
              db
      named (err e) = same db
      named (ok none) = same db
      named (ok (some id)) =
          when-SameWork db
            (authenticate_worker later id (token (request_to client "/v1/workers/heartbeat")) db) _
            (finish_beat-SameWork later id db)

  heartbeat-SameWork :
      (x : Exchange) (db : Db) → SameWork (Client.heartbeat_worker srv client x db).db db
  unfolding Client.heartbeat_worker call
  heartbeat-SameWork x db = by_fate x.fate
    where
      o : Api.Outcome
      o =
          do_post x.first x.later srv (request_to client "/v1/workers/heartbeat")
            (own_body client end) db

      by_fate : (f : Fate) → SameWork (fated f o db).db db
      by_fate delivered = post_beat-SameWork x.first x.later (own_body client end) db
      by_fate request_lost = same db
      by_fate reply_lost = post_beat-SameWork x.first x.later (own_body client end) db

  abbrev Authentic : Env → Db → Type 0
  Authentic env db =
      authenticate_worker env client.worker_id (token (request_to client "/v1/runs/result")) db
      ≡ ok true

  -- The same credentials authenticate the same workers.
  Authentic-same :
      (env : Env) (new db : Db) → SameWork new db → Authentic env db → Authentic env new
  unfolding authenticate_worker
  Authentic-same env new db s h = rw s.credentials h

  IsKnown-same : (e : Fields) (new db : Db) → SameWork new db → IsKnown e db → IsKnown e new
  IsKnown-same e new db s h = rw s.runs h

  module _ (e : Fields) (o : Outcome)
      (named : get_or "worker_id" (string "") e ≡ string client.worker_id) where
    -- The answer to a report of the worker.
    answer-report :
        (x : Exchange) (db : Db)
        → Authentic x.later db
        → do_post x.first x.later srv (request_to client "/v1/runs/result") e db
          ≡ finish_db ingested db (ingest_result x.later e db)
    unfolding do_post as_worker post_worker bound when
    answer-report x db auth = rw (named, auth) refl

    -- What a report of a result leaves that the controller has.
    abbrev after_fate : Fate → Memory → Db → Ended
    after_fate delivered m db = ended worked forget db
    after_fate request_lost m db = ended transport_error m db
    after_fate reply_lost m db = ended transport_error m db

    report_again :
        (x : Exchange) (m : Memory) (db : Db)
        → Authentic x.later db
        → ingest_result x.later e db ≡ ok db
        → report srv client x m e db ≡ after_fate x.fate m db
    unfolding report Client.ingest call reply_of finish_db
    report_again x m db auth known = rw (answer-report x db auth, known) (by_fate x.fate)
      where
        by_fate :
            (f : Fate)
            → reported m
                (fated f (finish_db ingested db (ok db)) db).reply
                (fated f (finish_db ingested db (ok db)) db).db
              ≡ after_fate f m db
        by_fate delivered = refl
        by_fate request_lost = refl
        by_fate reply_lost = refl

    -- What a turn leaves that reports the result again, whatever the network does.
    pub record Repeated (w : World) (t : Ended) : Type 0 where
      pub same_work : SameWork t.world.db w.db
      pub memory :
          ((t.turn ≡ transport_error) × (t.world.memory ≡ w.memory))
          ⊎ ((t.turn ≡ worked) × (t.world.memory ≡ forget))

    after_fate-Repeated :
        (c : Claim) (w : World) (f : Fate) (db : Db)
        → w.memory ≡ remember (some c) (some e)
        → SameWork db w.db
        → Repeated w (after_fate f (remember (some c) (some e)) db)
    after_fate-Repeated c w delivered db m s = record { same_work = s; memory = inr (refl, refl) }
    after_fate-Repeated c w request_lost db m s = record {
      same_work = s;
      memory = inl (refl, sym m);
    }
    after_fate-Repeated c w reply_lost db m s = record { same_work = s; memory = inl (refl, sym m) }

    after_beat-Repeated :
        (c : Claim) (p : Plan) (w : World) (reply : Reply) (db : Db)
        → w.memory ≡ remember (some c) (some e)
        → SameWork db w.db
        → Authentic p.reporting.later w.db
        → validate_envelope p.reporting.later.sha256 e ≡ ok o
        → IsKnown e w.db
        → Repeated w (after_beat srv client p (remember (some c) (some e)) reply db)
    unfolding serve_claim
    after_beat-Repeated c p w stale db m s auth v h = record {
      same_work = s;
      memory = inl (refl, sym m);
    }
    after_beat-Repeated c p w failed db m s auth v h = record {
      same_work = s;
      memory = inl (refl, sym m);
    }
    after_beat-Repeated c p w (answered shown) db m s auth v h =
        let known = known_result p.reporting.later e o db v (IsKnown-same e db w.db s h) in
        rw
          (report_again p.reporting (remember (some c) (some e)) db
            (Authentic-same p.reporting.later db w.db s auth) known)
          (after_fate-Repeated c w p.reporting.fate db m s)

    -- The controller has accepted a result that waits for no one, and the worker did not hear it. Each
    -- turn that follows leaves the runs, the jobs and the credentials as they are, and the worker either
    -- raises TransportError with the claim and the envelope at hand, or is done with them.
    pub once-Repeated :
        (env : Env) (old : Db) (c : Claim) (p : Plan) (w : World)
        → validate_envelope env.sha256 e ≡ ok o
        → o.status ≢ wait_user
        → ingest_result env e old ≡ ok w.db
        → w.memory ≡ remember (some c) (some e)
        → p.reporting.later.sha256 ≡ env.sha256
        → Authentic p.reporting.later w.db
        → Repeated w (once srv client p w)
    unfolding once
    once-Repeated env old c p w v n h m sha auth =
        let beat = Client.heartbeat_worker srv client p.heartbeat w.db in
        let repeated =
          after_beat-Repeated c p w beat.reply beat.db m (heartbeat-SameWork p.heartbeat w.db) auth
            (ap (λ f. validate_envelope f e) sha ∙ v)
            ((ingest_result-IsKnown env e o old v n).holds w.db h) in
        subst (λ mem. Repeated w (after_beat srv client p mem beat.reply beat.db)) (sym m) repeated

    -- As soon as such a turn has its heartbeat answered and its report delivered, the worker is free:
    -- it has neither a claim nor an envelope, in memory and on disk.
    pub once-forgets :
        (env : Env) (old : Db) (c : Claim) (p : Plan) (w : World) (shown : Payload)
        → validate_envelope env.sha256 e ≡ ok o
        → o.status ≢ wait_user
        → ingest_result env e old ≡ ok w.db
        → w.memory ≡ remember (some c) (some e)
        → p.reporting.later.sha256 ≡ env.sha256
        → Authentic p.reporting.later w.db
        → (Client.heartbeat_worker srv client p.heartbeat w.db).reply ≡ answered shown
        → p.reporting.fate ≡ delivered
        → ((once srv client p w).turn ≡ worked) × ((once srv client p w).world.memory ≡ forget)
    unfolding once serve_claim
    once-forgets env old c p w shown v n h m sha auth b d =
        let beat = Client.heartbeat_worker srv client p.heartbeat w.db in
        let s = heartbeat-SameWork p.heartbeat w.db in
        let known =
          known_result p.reporting.later e o beat.db (ap (λ f. validate_envelope f e) sha ∙ v) (
            IsKnown-same e beat.db w.db s ((ingest_result-IsKnown env e o old v n).holds w.db h)) in
        let again =
          report_again p.reporting (remember (some c) (some e)) beat.db
            (Authentic-same p.reporting.later beat.db w.db s auth) known in
        rw (m, b, again, d) (refl, refl)
