-- ===== src/Worker/Recovery.antt =====
-- A worker that is stopped and started again between two turns.
use dvk_claude.Common.{◌≡◌, refl, Option, none, some, on_branches}
use dvk_claude.Json.{Fields}
use dvk_claude.Result.{Result, ok, err}
use dvk_claude.Controller.Schema.{Db}
use dvk_claude.Controller.Claim.{Claim}
use dvk_claude.Api.{Server, claimed}
use dvk_claude.Worker.{AdapterResult}
use dvk_claude.Worker.Client
use dvk_claude.Worker.Client.{Client, Exchange, Reply, answered, stale, failed, Called}
use dvk_claude.Worker.Once.{
  Memory, restart, remember, forget, execute_claim, Plan, World, Ended, report, keep_lease,
  reported, finished_envelope, send_envelope, finish_claim, work, serve_claim, next_claim,
  find_claim, after_beat, once,
}

-- What the daemon knows is what it would read from its file.
abbrev pub IsRecoverable : Memory → Type 0
IsRecoverable m = restart m ≡ m

abbrev Recovers : Ended → Type 0
Recovers e = IsRecoverable e.world.memory

remember-IsRecoverable :
    (c : Claim) (pending : Option Fields) → IsRecoverable (remember (some c) pending)
unfolding restart
remember-IsRecoverable c pending = refl

forget-IsRecoverable : IsRecoverable forget
unfolding restart
forget-IsRecoverable = refl

reported-Recovers :
    (m : Memory) (reply : Reply) (db : Db) → IsRecoverable m → Recovers (reported m reply db)
reported-Recovers m (answered shown) db h = forget-IsRecoverable
reported-Recovers m stale db h = forget-IsRecoverable
reported-Recovers m failed db h = h

module _ (srv : Server) (client : Client) where
  report-Recovers :
      (x : Exchange) (c : Claim) (envelope : Fields) (db : Db)
      → Recovers (report srv client x (remember (some c) (some envelope)) envelope db)
  unfolding report
  report-Recovers x c envelope db =
      let sent = Client.ingest srv client x envelope db in
      reported-Recovers _ sent.reply sent.db (remember-IsRecoverable c (some envelope))

  finish_claim-Recovers :
      (p : Plan) (c : Claim) (r : Option AdapterResult) (db : Db)
      → Recovers (finish_claim srv client p c (remember (some c) none) r db)
  unfolding finish_claim
  finish_claim-Recovers p c none db = remember-IsRecoverable c none
  finish_claim-Recovers p c (some r) db = sent (finished_envelope srv client p c r)
    where
      sent :
          (e : Result Fields)
          → Recovers (send_envelope srv client p c (remember (some c) none) e db)
      sent (ok envelope) = report-Recovers p.reporting c envelope db
      sent (err e) = remember-IsRecoverable c none

  work-Recovers :
      (p : Plan) (c : Claim) (db : Db) → Recovers (work srv client p c (remember (some c) none) db)
  unfolding work
  work-Recovers p c db =
      let lease = keep_lease srv client c p.beats db in
      on_branches Recovers lease.is_lost _ _ (λ _. forget-IsRecoverable)
        (λ _. finish_claim-Recovers p c (execute_claim p.engines c) lease.db)

  serve_claim-Recovers :
      (p : Plan) (c : Claim) (pending : Option Fields) (db : Db)
      → Recovers (serve_claim srv client p c pending db)
  unfolding serve_claim
  serve_claim-Recovers p c none db = work-Recovers p c db
  serve_claim-Recovers p c (some envelope) db = report-Recovers p.reporting c envelope db

  next_claim-Recovers :
      (p : Plan) (m : Memory) (reply : Reply) (db : Db)
      → IsRecoverable m
      → Recovers (next_claim srv client p m reply db)
  next_claim-Recovers p m (answered (claimed (some c))) db h =
      serve_claim-Recovers p c m.pending_envelope db
  next_claim-Recovers p m (answered (claimed none)) db h = h
  next_claim-Recovers p m (answered shown) db h = h
  next_claim-Recovers p m stale db h = h
  next_claim-Recovers p m failed db h = h

  find_claim-Recovers :
      (p : Plan) (m : Memory) (c : Option Claim) (db : Db)
      → IsRecoverable m
      → Recovers (find_claim srv client p m c db)
  find_claim-Recovers p m (some c) db h = serve_claim-Recovers p c m.pending_envelope db
  find_claim-Recovers p m none db h =
      let asked = Client.claim srv client p.asking db in
      next_claim-Recovers p m asked.reply asked.db h

  after_beat-Recovers :
      (p : Plan) (m : Memory) (reply : Reply) (db : Db)
      → IsRecoverable m
      → Recovers (after_beat srv client p m reply db)
  after_beat-Recovers p m (answered shown) db h = find_claim-Recovers p m m.active_claim db h
  after_beat-Recovers p m stale db h = h
  after_beat-Recovers p m failed db h = h

  -- A worker may be stopped after any turn, one that raises included: what it then reads from its
  -- state file is the claim and the pending envelope that it held, if this was so before the turn.
  pub once-IsRecoverable :
      (p : Plan) (w : World)
      → IsRecoverable w.memory
      → IsRecoverable (once srv client p w).world.memory
  unfolding once
  once-IsRecoverable p w h =
      let beat = Client.heartbeat_worker srv client p.heartbeat w.db in
      after_beat-Recovers p w.memory beat.reply beat.db h
